-- ===== src/Inotify/Invariant.antt =====
-- How the tables of the watcher hang together.
use libfilewatch.Base.{
  ℕ, ◌≡◌, ◌≢◌, Bool, List, [], In, if◌then◌else◌, ◌==◌, nat_eq, text_eq, Option, some, arith,
}
use libfilewatch.Base.Dict
use libfilewatch.Base.Dict.{Dict, lookup}
use libfilewatch.Path.{FilePath}
use libfilewatch.Inotify.{Kernel, Inotify, RootWatch, root_at, roots_at, new_inotify}

-- This holds whatever the kernel answers. A descriptor's path leads back to it, each descriptor with
-- a path is held by a root, and a root that holds a descriptor lists it.
pub record IsConsistent {K : Kernel} (s : Inotify K) : Type 0 where
  pub known :
      (wd : ℕ) (p : FilePath) → lookup wd s.watch_map ≡ some p → lookup p s.path_watch_map ≡ some wd
  pub held :
      (wd : ℕ) (p : FilePath) → lookup wd s.watch_map ≡ some p → roots_at wd s.wd_to_roots ≢ []
  pub owned :
      (wd : ℕ) (r : FilePath)
      → In r (roots_at wd s.wd_to_roots)
      → In wd (root_at K.unset r s.root_watches).associated_wds

pub roots_at-insert :
    (k wd : ℕ) (l : List FilePath) (d : Dict ℕ (List FilePath))
    → roots_at wd (Dict.insert k l d) ≡ (if wd == k then l else roots_at wd d)
roots_at-insert k wd l d = ground (arith, Dict.lookup-insert k wd l d)

pub roots_at-erase :
    (k wd : ℕ) (d : Dict ℕ (List FilePath))
    → roots_at wd (Dict.erase k d) ≡ (if wd == k then [] else roots_at wd d)
roots_at-erase k wd d = ground (arith, Dict.lookup-erase k wd d)

pub root_at-insert :
    (u : Bool) (k r : FilePath) (w : RootWatch) (d : Dict FilePath RootWatch)
    → root_at u r (Dict.insert k w d) ≡ (if r == k then w else root_at u r d)
root_at-insert u k r w d = ground (arith, Dict.lookup-insert k r w d)

pub root_at-erase :
    (u : Bool) (k r : FilePath) (d : Dict FilePath RootWatch)
    → r ≢ k
    → root_at u r (Dict.erase k d) ≡ root_at u r d
root_at-erase u k r d n = ground (arith, Dict.lookup-erase k r d)

pub new-IsConsistent :
    {K : Kernel} (k : K.State) (e i w : Option ℕ) → IsConsistent (new_inotify {K = K} k e i w)
new-IsConsistent k e i w = record {
  known = λ wd p h. cc;
  held = λ wd p h. cc;
  owned = λ wd r m. absurd m;
}
