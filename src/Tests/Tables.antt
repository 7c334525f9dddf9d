-- ===== src/Tests/Tables.antt =====
-- The tables of the inotify watcher (src/core/InotifyWatcher.cpp) on concrete input.
use libfilewatch.Base.{
  ℕ, ◌≡◌, refl, ◌≢◌, ◌↔◌, ◌==◌, ◌||◌, if◌then◌else◌, true, false, List, [], ◌∷◌, length, In, Nodup,
  nat_eq, text_eq, Option, none, some,
}
use libfilewatch.Base.Dict.{lookup}
use libfilewatch.Path.{FilePath, normalize_path}
use libfilewatch.Inotify.{
  Kernel, Inotify, RootWatch, new_inotify, roots_at, attach, add_directory_watch, add_watch,
  remove_root, forget,
}
use libfilewatch.Inotify.Events.{InotifyEvent}
use libfilewatch.Inotify.Invariant.{IsConsistent, new-IsConsistent}
use libfilewatch.Inotify.Adding.{add_watch-IsConsistent}
use libfilewatch.Inotify.Release.{rm_each}
use libfilewatch.Inotify.Cascade.{remove_root_cascades}
use libfilewatch.Inotify.Stale.{renamed_directory_stale}
use libfilewatch.Inotify.Loop.{Ready}
use libfilewatch.Tests.Instances.{counting, single_inode, path_a, path_b, path_c}

abbrev fresh : Inotify counting
fresh = new_inotify {K = counting} 1 (some 3) (some 4) (some 5)

-- "/a" is watched, under descriptor 1.
abbrev tree : Inotify counting
tree = (add_watch 2 path_a true fresh).1

abbrev root_a : RootWatch
root_a = record { root_path = path_a; recursive = true; associated_wds = 1 ∷ [] }

tree-IsConsistent : IsConsistent tree
tree-IsConsistent =
    add_watch-IsConsistent 2 path_a true fresh refl
      (new-IsConsistent {K = counting} 1 (some 3) (some 4) (some 5))

tree-root : lookup path_a tree.root_watches ≡ some root_a
unfolding add_watch text_eq nat_eq
tree-root = refl

-- A directory "c" appears in "/a".
abbrev new_directory : InotifyEvent
new_directory = record {
  wd = 1;
  cookie = 0;
  mask = record {
    ignored = false;
    is_dir = true;
    on_create = true;
    close_write = false;
    on_delete = false;
    delete_self = false;
    moved_from = false;
    moved_to = false;
  };
  name = some (99 ∷ []);
}

other_root : lookup (normalize_path path_b) tree.root_watches ≡ none
unfolding add_watch text_eq nat_eq
other_root = refl

-- A round that reads nothing.
abbrev empty_read : Ready
empty_read = record { fd = 4; buffer = [] }

remove_root_cascades_example :
    let s' = remove_root path_a root_a tree in
    ((wd : ℕ) (p : FilePath)
      → (lookup wd s'.watch_map ≡ some p) ↔ (
          (lookup wd tree.watch_map ≡ some p)
          × ((r : FilePath) × (r ≢ path_a) × In r (roots_at wd tree.wd_to_roots))))
    × ((wd : ℕ) (r : FilePath)
        → In r (roots_at wd s'.wd_to_roots) ↔ (In r (roots_at wd tree.wd_to_roots) × (r ≢ path_a)))
    × (lookup path_a s'.root_watches ≡ none)
    × ((released : List ℕ) × Nodup released
        × ((wd : ℕ) → In wd released → In wd root_a.associated_wds)
        × ((wd : ℕ) (p : FilePath)
            → lookup wd tree.watch_map ≡ some p
            → In wd released ↔ (lookup wd s'.watch_map ≡ none))
        × (s'.kernel ≡ rm_each counting released tree.kernel))
remove_root_cascades_example = remove_root_cascades path_a root_a tree tree-IsConsistent tree-root

-- "/a" has descriptor 1, which the kernel also answers for "/b".
abbrev moved_tree : Inotify single_inode
moved_tree =
    (add_directory_watch path_a path_c true
      (new_inotify {K = single_inode} 0 (some 3) (some 4) (some 5))).1

renamed_directory_stale_example :
    let t = (add_directory_watch path_b path_c true moved_tree).1 in
    let freed = forget 1 t in
    (lookup 1 t.watch_map ≡ some path_b)
    × (lookup path_a t.path_watch_map ≡ some 1)
    × (add_directory_watch path_a path_c true t ≡ (some 1, attach 1 path_c true t))
    × (lookup 1 freed.watch_map ≡ none)
    × (add_directory_watch path_a path_c true freed ≡ (some 1, attach 1 path_c true freed))
unfolding add_directory_watch text_eq
renamed_directory_stale_example =
    renamed_directory_stale 1 path_a path_b path_c path_c true true moved_tree refl refl refl

-- "/a/c"
abbrev path_ac : FilePath
path_ac = 47 ∷ 97 ∷ 47 ∷ 99 ∷ []

-- The position of a path, counted from the end.
unfoldable place : FilePath → List FilePath → Option ℕ
place p [] = none
place p (q ∷ qs) = if p == q then some (length qs) else place p qs

-- Each path that is watched is given its position; "/a" holds "/a/c" and a file.
abbrev listed : Kernel
listed = record {
  State = List FilePath;
  inotify_add_watch =
      λ p k. elim (place p k) [ some d ↦ (some d, k) | none ↦ (some (length k), p ∷ k) ];
  inotify_rm_watch = λ wd k. k;
  list_dir = λ k p. if p == path_a then some ((46 ∷ []) ∷ (99 ∷ []) ∷ (102 ∷ []) ∷ []) else none;
  stat_dir = λ k p. if p == path_a || p == path_ac then some true else some false;
  unset = false;
}

abbrev fresh_listed : Inotify listed
fresh_listed = new_inotify {K = listed} [] (some 3) (some 4) (some 5)
