-- ===== src/Backend/Added.antt =====
-- From `addWatch` to the callback: a directory that is added is reported on (src/FileWatcher.cpp,
-- src/core/InotifyWatcher.cpp).
use libfilewatch.Base.{
  ℕ, ◌≡◌, ◌≢◌, refl, sym, ap, ◌∙◌, subst, inl, inr, Bool, true, false, [], ◌∷◌, ◌++◌, In,
  if◌then◌else◌, ◌==◌, nat_eq, text_eq, none, some, Option-cases, arith,
}
use libfilewatch.Base.Dict
use libfilewatch.Base.Dict.{Dict, lookup, Unique}
use libfilewatch.Path.{FilePath, slash, backslash, fix_slashes, normalize_path}
use libfilewatch.PathUtils.{Os, get_absolute_path}
use libfilewatch.Event.{modify, file, file_event}
use libfilewatch.Filter.{Regex}
use libfilewatch.Watcher.{returned, WatchEntry, EventCallback, add_watch}
use libfilewatch.Watcher.Watches.{add_watch_iff, added_watches, added_platform}
use libfilewatch.Watcher.Delivery.{call_each, IsTaken}
use libfilewatch.Inotify.{Kernel, Inotify, RootWatch, child_path, add_directory_watch, attach}
use libfilewatch.Inotify
use libfilewatch.Inotify.Events.{InotifyEvent}
use libfilewatch.Inotify.Attach.{added_cases}
use libfilewatch.Backend.{inotify_platform, System, on_kernel_event}
use libfilewatch.Backend.Delivered.{IsWrite, IsLetThrough, written_file_delivered}

-- A path as the code writes it: not empty, with no slash at its end, with no backslash.
pub record IsPlain (p : FilePath) : Type 0 where
  pub nonempty : p ≢ []
  pub ends : normalize_path p ≡ p
  pub slashes : fix_slashes p ≡ p

pub record IsName (n : FilePath) : Type 0 where
  pub single : ¬ In slash n
  pub slashes : fix_slashes n ≡ n

fix_slashes-append : (p q : FilePath) → fix_slashes (p ++ q) ≡ fix_slashes p ++ fix_slashes q
unfolding fix_slashes
fix_slashes-append [] q = refl
fix_slashes-append (c ∷ p) q =
    ap (λ r. (if c == backslash then slash else c) ∷ r) (fix_slashes-append p q)

fix_slashes-slash : (q : FilePath) → fix_slashes (slash ∷ q) ≡ slash ∷ fix_slashes q
unfolding fix_slashes nat_eq
fix_slashes-slash q = refl

fix_slashes-child_path :
    (p n : FilePath) → IsPlain p → IsName n → fix_slashes (child_path p n) ≡ child_path p n
fix_slashes-child_path p n a b =
    fix_slashes-append p (slash ∷ n)
    ∙ (ap (λ r. r ++ fix_slashes (slash ∷ n)) a.slashes
        ∙ ap (λ r. p ++ r) (fix_slashes-slash n ∙ ap (λ r. slash ∷ r) b.slashes))

child-IsTaken :
    {W : Type 0} (p n : FilePath) (e : WatchEntry W)
    → IsPlain p
    → IsName n
    → IsTaken p e (file_event modify (child_path p n) file)
child-IsTaken p n e a b = (
  a.nonempty,
  inr (
    n,
    fix_slashes-child_path p n a b
        ∙ ap (λ r. child_path r n) (sym (ap normalize_path a.slashes ∙ a.ends)),
    inr b.single,
  ),
)

module _ {K : Kernel} where
  attach-watch_map :
      (wd : ℕ) (root : FilePath) (rec : Bool) (s : Inotify K)
      → (attach wd root rec s).watch_map ≡ s.watch_map
  unfolding attach
  attach-watch_map wd root rec s = refl

  -- A new directory gets a descriptor, which has its path.
  directory_entered :
      (path root : FilePath) (rec : Bool) (s : Inotify K) (wd : ℕ)
      → lookup path s.path_watch_map ≡ none
      → (add_directory_watch path root rec s).0 ≡ some wd
      → lookup wd (add_directory_watch path root rec s).1.watch_map ≡ some path
  directory_entered path root rec s wd e h = elim (added_cases path root rec s) [
    | inl (wd', f, r) ↦ cc
    | inr (inl (f, n, r)) ↦ cc
    | inr (inr (wd', f, a, r)) ↦
        let t : Inotify K = record s {
          kernel = (K.inotify_add_watch path s.kernel).1;
          watch_map = Dict.insert wd' path s.watch_map;
          path_watch_map = Dict.insert path wd' s.path_watch_map;
        } in
        ap (λ x. lookup wd x.1.watch_map) r
        ∙ (ap (lookup wd) (attach-watch_map wd' root rec t)
            ∙ ground (arith, Dict.lookup-insert wd' wd path s.watch_map))
  ]

  added_single :
      (f : ℕ) (path : FilePath) (s : Inotify K)
      → lookup (normalize_path path) s.path_watch_map ≡ none
      → (Inotify.add_watch f path false s).0 ≡ true
      → (wd : ℕ) × (lookup wd (Inotify.add_watch f path false s).1.watch_map
          ≡ some (normalize_path path))
  unfolding Inotify.add_watch
  added_single f path s new done =
      let norm = normalize_path path in
      let watch : RootWatch = record { root_path = norm; recursive = false; associated_wds = [] } in
      let entered : Inotify K = record s { root_watches = Dict.insert norm watch s.root_watches } in
      let first = add_directory_watch norm norm false entered in
      elim (Option-cases first.0) [
        | inl e ↦ absurd (ground arith)
        | inr (wd, e) ↦ (wd, ground (arith, directory_entered norm norm false entered wd))
      ]

found_back :
    {V : Type 0} (k : FilePath) (v : V) (d : Dict FilePath V)
    → lookup k (Dict.insert k v d) ≡ some v
found_back k v d = ground (arith, Dict.lookup-insert k k v d)

returned-injective : (a : Bool) → returned a ≡ returned true → a ≡ true
returned-injective a h = cc

-- The callback of a directory that is added without the directories below it (not recursively), and
-- that the backend had no watch of, is called when a file in it is written: if `addWatch` answers true
-- for it, then in the state that this leaves, the
-- directory has a watch descriptor, and for each file that is written there, the watches whose
-- callbacks are called, each once, have this one among them, unless the filter or the debounce drops
-- the event. The path must have no slash at its end and no backslash, the name neither.
pub added_directory_delivers :
    {X : Regex} {K : Kernel} (fuel : ℕ) {W : Type 0} (os : Os) (path : FilePath)
    (cb : EventCallback W) (s : System X (inotify_platform K fuel) W)
    → let norm = get_absolute_path os path in
      let r = add_watch os path false cb s.watcher in
      IsPlain norm
      → Unique s.watcher.watches
      → lookup norm s.watcher.platform_watcher.path_watch_map ≡ none
      → r.0 ≡ true
      → (wd : ℕ) × ((clock : ℕ → ℕ) (ev : InotifyEvent) (n : FilePath)
          → ev.wd ≡ wd
          → IsWrite ev n
          → IsName n
          → let fe = file_event modify (child_path norm n) file in
            IsLetThrough fe (clock 0) r.1
            → (called : Dict FilePath (WatchEntry W)) × Unique called
              × In (norm, record { callback = cb; recursive = false }) called
              × ((on_kernel_event fuel clock ev (record s { watcher = r.1 })).world
                  ≡ call_each called fe s.world))
added_directory_delivers {X} {K} fuel {W} os path cb s plain u new done =
    let norm = get_absolute_path os path in
    let i = s.watcher.platform_watcher in
    let e : WatchEntry W = record { callback = cb; recursive = false } in
    let r = add_watch os path false cb s.watcher in
    let at : normalize_path norm ≡ norm = plain.ends in
    let answered = returned-injective _ ((add_watch_iff os path false cb s.watcher).0 done).1 in
    let (wd, entered) = added_single fuel norm i (rw at new) answered in
    let now_there : r.1.watches ≡ Dict.insert norm e s.watcher.watches =
      ground (arith, added_watches os path false cb s.watcher) in
    (
      wd,
      λ clock ev n w write name through.
          let held : lookup ev.wd r.1.platform_watcher.watch_map ≡ some norm =
            ap (λ (q : Inotify K). lookup ev.wd q.watch_map)
              (added_platform os path false cb s.watcher done)
            ∙ (ap (λ d. lookup d (Inotify.add_watch fuel norm false i).1.watch_map) w
                ∙ (entered ∙ ap some at)) in
          let unique =
            subst Unique (sym now_there) (Dict.insert-Unique norm e s.watcher.watches u) in
          let listed = ap (lookup norm) now_there ∙ found_back norm e s.watcher.watches in
          let (called, single, named, calls) =
            written_file_delivered fuel clock ev norm n (record s { watcher = r.1 }) write held
              unique through in
          (called, single, (named norm e).1 (listed, child-IsTaken norm n e plain name), calls),
    )
