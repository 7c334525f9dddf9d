-- ===== src/Inotify.antt =====
-- `InotifyWatcher` (src/core/InotifyWatcher.cpp): its tables, `addWatch`, `removeWatch` and the
-- functions below them. A descriptor of -1 is `none`; watch descriptors and rename cookies are
-- numbers. The kernel is the parameter `Kernel`. Each block that the mutex guards is one step.
pub mod Events
pub mod Loop
pub mod Frames
pub mod Runs
pub mod Roots
pub mod Rooted
pub mod Invariant
pub mod Attach
pub mod Adding
pub mod Release
pub mod Cascade
pub mod Removal
pub mod Watched
pub mod Reach
pub mod Stale
pub mod Processing
pub mod Rename
use libfilewatch.Base.{
  ℕ, zero, suc, Bool, true, false, not, ◌&&◌, ◌||◌, List, [], ◌∷◌, ◌++◌, is_empty, erase, insert,
  if◌then◌else◌, Eq, ◌==◌, nat_eq, text_eq, Option, none, some,
}
use libfilewatch.Base.Dict
use libfilewatch.Base.Dict.{Dict, lookup}
use libfilewatch.Path.{FilePath, slash, dot, normalize_path}
use libfilewatch.Event.{PathType}

-- The system calls that the watcher makes on paths and watches. `inotify_add_watch` gives a watch
-- descriptor or fails, `list_dir` are the names that `opendir` and `readdir` give, `stat_dir` says
-- whether the path exists and whether it is a directory. `unset` is what a `bool` member holds that
-- no constructor sets.
pub record Kernel : Type 1 where
  pub State : Type 0
  pub inotify_add_watch : FilePath → State → Option ℕ × State
  pub inotify_rm_watch : ℕ → State → State
  pub list_dir : State → FilePath → Option (List FilePath)
  pub stat_dir : State → FilePath → Option Bool
  pub unset : Bool

-- A root that the user added, with the descriptors of itself and of the directories below it.
pub record RootWatch : Type 0 where
  pub root_path : FilePath
  pub recursive : Bool
  pub associated_wds : List ℕ

pub record RenameInfo : Type 0 where
  pub old_path : FilePath
  pub old_path_type : PathType

pub record Inotify (K : Kernel) : Type 0 where
  pub kernel : K.State
  pub epoll_fd : Option ℕ
  pub inotify_fd : Option ℕ
  pub wakeup_fd : Option ℕ
  pub watch_map : Dict ℕ FilePath
  pub path_watch_map : Dict FilePath ℕ
  pub watch_recursive : Dict ℕ Bool
  pub root_watches : Dict FilePath RootWatch
  pub wd_to_roots : Dict ℕ (List FilePath)
  pub rename_map : Dict ℕ RenameInfo
  pub running : Bool
  pub wakeups : ℕ

-- A name that is "." or "..".
abbrev pub is_dots : FilePath → Bool
is_dots name = name == dot ∷ [] || name == dot ∷ dot ∷ []

abbrev pub child_path : FilePath → FilePath → FilePath
child_path path name = path ++ slash ∷ name

-- `m[k]` of tables whose entries have a default.
abbrev pub flag_at : ℕ → Dict ℕ Bool → Bool
flag_at wd d = elim (lookup wd d) [ some b ↦ b | none ↦ false ]

abbrev pub roots_at : ℕ → Dict ℕ (List FilePath) → List FilePath
roots_at wd d = elim (lookup wd d) [ some l ↦ l | none ↦ [] ]

abbrev pub root_at : Bool → FilePath → Dict FilePath RootWatch → RootWatch
root_at unset r d = elim (lookup r d) [
  | some watch ↦ watch
  | none ↦ record { root_path = []; recursive = unset; associated_wds = [] }
]

-- The loop over the descriptors of a root in `removeWatch`: what is left of the table, and the
-- descriptors that no root holds any more.
unfoldable pub release_all :
    FilePath → List ℕ → Dict ℕ (List FilePath) → List ℕ × Dict ℕ (List FilePath)
unfolding Dict.insert Dict.erase
release_all root [] d = ([], d)
release_all root (wd ∷ wds) d =
    let rest = erase root (roots_at wd d) in
    let absent = release_all root wds d in
    let freed = release_all root wds (Dict.erase wd d) in
    let shared = release_all root wds (Dict.insert wd rest d) in
    elim (lookup wd d) [
      | none ↦ absent
      | some _ ↦ if is_empty rest then (wd ∷ freed.0, freed.1) else shared
    ]

module _ {K : Kernel} where
  -- The members as the constructor's initialisers leave them, with the descriptors that it opens.
  abbrev pub new_inotify : K.State → Option ℕ → Option ℕ → Option ℕ → Inotify K
  new_inotify k epoll ino wake = record {
    kernel = k;
    epoll_fd = epoll;
    inotify_fd = ino;
    wakeup_fd = wake;
    watch_map = [];
    path_watch_map = [];
    watch_recursive = [];
    root_watches = [];
    wd_to_roots = [];
    rename_map = [];
    running = false;
    wakeups = 0;
  }

  -- The first half of `addDirectoryWatch`: the descriptor of the path, known or new.
  unfoldable pub obtain : FilePath → Inotify K → Option ℕ × Inotify K
  unfolding Dict.insert
  obtain path s =
      let (answer, k) = K.inotify_add_watch path s.kernel in
      elim (lookup path s.path_watch_map) [
        | some wd ↦ (some wd, s)
        | none ↦ elim answer [
          | none ↦ (none, record s { kernel = k })
          | some wd ↦ (
            some wd,
            record s {
              kernel = k;
              watch_map = Dict.insert wd path s.watch_map;
              path_watch_map = Dict.insert path wd s.path_watch_map;
            },
          )
        ]
      ]

  -- The second half: the descriptor is entered under the root.
  unfoldable pub attach : ℕ → FilePath → Bool → Inotify K → Inotify K
  unfolding Dict.insert
  attach wd root recursive s =
      let watch = root_at K.unset root s.root_watches in
      record s {
        watch_recursive =
            Dict.insert wd (flag_at wd s.watch_recursive || recursive) s.watch_recursive;
        root_watches =
            Dict.insert root (record watch { associated_wds = insert wd watch.associated_wds })
              s.root_watches;
        wd_to_roots = Dict.insert wd (insert root (roots_at wd s.wd_to_roots)) s.wd_to_roots;
      }

  unfoldable pub add_directory_watch : FilePath → FilePath → Bool → Inotify K → Option ℕ × Inotify K
  unfolding obtain attach
  add_directory_watch path root recursive s =
      let (found, t) = obtain path s in
      elim found [ none ↦ (none, t) | some wd ↦ (some wd, attach wd root recursive t) ]

  -- The loop over the entries of a directory in `addRecursiveWatches`; `down` is the call on a
  -- directory one level below.
  unfoldable pub walk :
      (FilePath → Inotify K → Inotify K) → FilePath → List FilePath → Inotify K → Inotify K
  walk down path [] s = s
  walk down path (name ∷ names) s =
      let below = walk down path names (down (child_path path name) s) in
      let skipped = walk down path names s in
      if is_dots name then skipped else elim (K.stat_dir s.kernel (child_path path name)) [
        | some true ↦ below
        | some false ↦ skipped
        | none ↦ skipped
      ]

  -- The fuel bounds the depth of the tree below the path.
  unfoldable pub add_recursive_watches : ℕ → FilePath → FilePath → Inotify K → Inotify K
  unfolding add_directory_watch walk
  add_recursive_watches zero path root s = s
  add_recursive_watches (suc f) path root s =
      let t = (add_directory_watch path root true s).1 in
      elim (K.list_dir t.kernel path) [
        | none ↦ t
        | some names ↦ walk (λ p. add_recursive_watches f p root) path names t
      ]

  unfoldable pub add_watch : ℕ → FilePath → Bool → Inotify K → Bool × Inotify K
  unfolding normalize_path add_recursive_watches Dict.erase
  add_watch fuel path recursive s =
      let norm = normalize_path path in
      let watch : RootWatch = record {
        root_path = norm;
        recursive = recursive;
        associated_wds = [];
      } in
      let (found, t) =
        add_directory_watch norm norm recursive
          (record s { root_watches = Dict.insert norm watch s.root_watches }) in
      elim s.inotify_fd [
        | none ↦ (false, s)
        | some _ ↦ elim found [
          | none ↦ (false, record t { root_watches = Dict.erase norm t.root_watches })
          | some _ ↦ (true, if recursive then add_recursive_watches fuel norm norm t else t)
        ]
      ]

  -- One round of the last loop of `removeWatch`.
  unfoldable pub forget : ℕ → Inotify K → Inotify K
  unfolding Dict.erase
  forget wd s = record s {
    kernel = K.inotify_rm_watch wd s.kernel;
    path_watch_map = elim (lookup wd s.watch_map) [
      | some p ↦ Dict.erase p s.path_watch_map
      | none ↦ s.path_watch_map
    ];
    watch_map = Dict.erase wd s.watch_map;
    watch_recursive = Dict.erase wd s.watch_recursive;
  }

  unfoldable pub forget_all : List ℕ → Inotify K → Inotify K
  unfolding forget
  forget_all [] s = s
  forget_all (wd ∷ wds) s = forget_all wds (forget wd s)

  -- `removeWatch` for a path that is a root, and for any other path.
  unfoldable pub remove_root : FilePath → RootWatch → Inotify K → Inotify K
  unfolding release_all forget_all Dict.erase
  remove_root norm watch s =
      let r = release_all norm watch.associated_wds s.wd_to_roots in
      forget_all r.0 (record s { wd_to_roots = r.1; root_watches = Dict.erase norm s.root_watches })

  unfoldable pub remove_single : FilePath → Inotify K → Bool × Inotify K
  unfolding forget_all Dict.erase
  remove_single norm s = elim (lookup norm s.path_watch_map) [
    | none ↦ (false, s)
    | some wd ↦
        (true, forget_all (wd ∷ []) (record s { wd_to_roots = Dict.erase wd s.wd_to_roots }))
  ]

  unfoldable pub remove_watch : FilePath → Inotify K → Bool × Inotify K
  unfolding normalize_path remove_root remove_single
  remove_watch path s =
      let norm = normalize_path path in
      elim s.inotify_fd [
        | none ↦ (false, s)
        | some _ ↦ elim (lookup norm s.root_watches) [
          | some watch ↦ (true, remove_root norm watch s)
          | none ↦ remove_single norm s
        ]
      ]
