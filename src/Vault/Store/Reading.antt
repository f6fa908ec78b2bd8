-- ===== src/Vault/Store/Reading.antt =====
-- readSmallVersions (internal/vault/store.go) reads only.
use shfm.Common.{
  ◌≡◌, refl, ◌∙◌, Bool, Option, none, some, List, [], ◌∷◌, ◌++◌, Bytes, if◌then◌else◌,
}
use shfm.Backend.{Disk, M}
use shfm.Vault.Store.{
  Loaded, Unread, read_small, exists, decoded, try_version, versions_loop, read_small_versions,
  or_first, read_failed, undecodable, tmp_suffix, bak_suffix,
}
use shfm.Vault.Store.Replace.{nodes-read_small, nodes-exists}

module _ {A : Type 0} (decode : Bytes → Option A) where
  abbrev Reads : M (Loaded A) → Type 0
  Reads m = (d : Disk) → (m d).1.nodes ≡ d.nodes

  decoded-Reads :
      (o : Option A) (others : Option Unread → M (Loaded A)) (first : Option Unread)
      → ((f : Option Unread) → Reads (others f))
      → Reads (decoded decode o others first)
  unfolding decoded
  decoded-Reads none others first h d = h (or_first first undecodable) d
  decoded-Reads (some a) others first h d = refl

  try_version-Reads :
      (o : Option Bytes) (q : Bytes) (others : Option Unread → M (Loaded A)) (first : Option Unread)
      → ((f : Option Unread) → Reads (others f))
      → Reads (try_version decode o q others first)
  unfolding try_version
  try_version-Reads (some b) q others first h d = decoded-Reads (decode b) others first h d
  try_version-Reads none q others first h d =
      h (if (exists q d).0 then or_first first read_failed else first) (exists q d).1
      ∙ nodes-exists q d

  versions_loop-Reads :
      (qs : List Bytes) (first : Option Unread) → Reads (versions_loop decode qs first)
  unfolding versions_loop
  versions_loop-Reads [] first d = refl
  versions_loop-Reads (q ∷ qs) first d =
      try_version-Reads (read_small q d).0 q (versions_loop decode qs) first
        (λ f. versions_loop-Reads qs f) (read_small q d).1
      ∙ nodes-read_small q d

  pub nodes-read_small_versions :
      (p : Bytes) (with_bak : Bool) (d : Disk)
      → (read_small_versions decode p with_bak d).1.nodes ≡ d.nodes
  unfolding read_small_versions
  nodes-read_small_versions p with_bak d =
      versions_loop-Reads
        (p ∷ (p ++ tmp_suffix) ∷ (if with_bak then (p ++ bak_suffix) ∷ [] else [])) none d
