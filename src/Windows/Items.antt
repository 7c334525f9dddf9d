-- ===== src/Windows/Items.antt =====
-- The items of `WindowsWatcher` (src/core/WindowsWatcher.cpp), who owns them, and what becomes of the
-- packets of one that is gone.
use libfilewatch.Base.{
  ℕ, ◌<◌, ◌≡◌, ◌≢◌, refl, sym, ap, ◌∙◌, subst, ◌⊎◌, inl, inr, Bool, true, false, is_empty,
  if◌then◌else◌, ◌==◌, nat_eq, text_eq, Option, none, some, Option-cases, Bool-cases, arith,
}
use libfilewatch.Base.Dict
use libfilewatch.Base.Dict.{Dict, lookup}
use libfilewatch.Path.{FilePath}
use libfilewatch.PathUtils.OnWindows.{normalize_windows}
use libfilewatch.Encoding.{utf8_to_utf16}
use libfilewatch.Windows.{
  Win32, WatchItem, Windows, new_windows, issue_read, close_item, enter, register, add_watch,
  remove_watch,
}

-- Each watched path has an item of its own, for that path, with an open directory; each item is that
-- of a watched path; addresses are neither 0 nor the key of the wake-up packet, nor used twice.
pub record IsOwned {E : Win32} (s : Windows E) : Type 0 where
  pub live :
      (p : FilePath) (a : ℕ)
      → lookup p s.watches ≡ some a
      → (item : WatchItem) × (lookup a s.items ≡ some item) × (item.path ≡ p) × (item.h_dir ≢ none)
  pub owner :
      (a : ℕ) (item : WatchItem)
      → lookup a s.items ≡ some item
      → lookup item.path s.watches ≡ some a
  pub used : (a : ℕ) (item : WatchItem) → lookup a s.items ≡ some item → (1 < a) × (a < s.next_item)
  pub next : 1 < s.next_item

-- The part of the state that the owners stand in.
abbrev pub Same : {E : Win32} → Windows E → Windows E → Type 0
Same s t = (t.watches ≡ s.watches) × (t.items ≡ s.items) × (t.next_item ≡ s.next_item)

module _ {E : Win32} where
  pub new-IsOwned : (k : E.wide.State) (port : Option ℕ) → IsOwned (new_windows {E = E} k port)
  new-IsOwned k port = record {
    live = λ p a e. cc;
    owner = λ a i e. cc;
    used = λ a i e. cc;
    next = omega arith;
  }

  pub Same-IsOwned : (s t : Windows E) → Same s t → IsOwned s → IsOwned t
  Same-IsOwned s t (w, i, n) o = record {
    live = λ p a e. rw i (o.live p a (sym (ap (lookup p) w) ∙ e));
    owner = λ a item e. rw w (o.owner a item (sym (ap (lookup a) i) ∙ e));
    used = λ a item e. rw n (o.used a item (sym (ap (lookup a) i) ∙ e));
    next = rw n o.next;
  }

  -- Behind `enter` an address is that of the new item, or one that was there before and is not that
  -- of the path.
  pub lookup-entered :
      (norm : FilePath) (item : WatchItem) (s : Windows E) (a : ℕ)
      → IsOwned s
      → lookup a (enter norm item s).items ≡ (
          if a == s.next_item then some item else elim (lookup norm s.watches) [
            | some old ↦ if a == old then none else lookup a s.items
            | none ↦ lookup a s.items
          ])
  unfolding enter
  lookup-entered norm item s a o = elim (Option-cases (lookup norm s.watches)) [
    | inl e ↦ ground (arith, Dict.lookup-insert s.next_item a item s.items)
    | inr (old, e) ↦ ground (
      arith,
      Dict.lookup-insert s.next_item a item (Dict.erase old s.items),
      Dict.lookup-erase old a s.items,
    )
  ]

  enter-IsOwned :
      (norm : FilePath) (item : WatchItem) (s : Windows E)
      → item.path ≡ norm
      → item.h_dir ≢ none
      → IsOwned s
      → IsOwned (enter norm item s)
  unfolding enter
  enter-IsOwned norm item s at opened o = record {
    live = λ p a e. elim (Bool-cases (p == norm)) [
      | inl same ↦ (
        item,
        ground (
          arith,
          lookup-entered norm item s a o,
          Dict.lookup-insert norm p s.next_item s.watches,
        ),
        ground arith,
        opened,
      )
      | inr other ↦
          let (i, l, q, h) =
            o.live p a (ground (arith, Dict.lookup-insert norm p s.next_item s.watches)) in
          (i, ground (arith, lookup-entered norm item s a o, o.used a i, o.live norm a), q, h)
    ];
    owner = λ a i e. ground (
      arith,
      lookup-entered norm item s a o,
      o.owner a i,
      o.used a i,
      o.live norm a,
      Dict.lookup-insert norm i.path s.next_item s.watches,
    );
    used = λ a i e. ground (arith, lookup-entered norm item s a o, o.used a i, o.next);
    next = ground (arith, o.next);
  }

  pub issue_read-Same : (item : WatchItem) (s : Windows E) → Same s (issue_read item s).1
  unfolding issue_read
  issue_read-Same item s = ground arith

  -- `register` leaves the owners alone, or it succeeds and enters the item.
  register_cases :
      (norm : FilePath) (item : WatchItem) (h : ℕ) (s : Windows E)
      → (((register norm item h s).0 ≡ false) × Same s (register norm item h s).1)
        ⊎ ((t : Windows E) × Same s t × (register norm item h s ≡ (true, enter norm item t)))
  unfolding register
  register_cases norm item h s = elim (Option-cases s.iocp) [
    | inl e ↦ inr (s, (refl, refl, refl), ground arith)
    | inr (port, e) ↦
        let tied = E.associate h port s.next_item s.system in
        let t : Windows E = record s { system = tied.1 } in
        let asked = issue_read-Same item t in
        elim (Bool-cases tied.0) [
          | inr no_tie ↦ inl (ground arith, ground arith)
          | inl tie ↦ elim (Bool-cases (issue_read item t).0) [
            | inr no_read ↦ inl (ground arith, ground arith)
            | inl read ↦ inr ((issue_read item t).1, asked, ground arith)
          ]
        ]
  ]

  pub add_watch_cases :
      (path : FilePath) (rec : Bool) (s : Windows E)
      → (((add_watch path rec s).0 ≡ false) × Same s (add_watch path rec s).1)
        ⊎ ((item : WatchItem) × (t : Windows E) × (item.path ≡ normalize_windows path)
            × (item.h_dir ≢ none)
            × Same s t
            × (add_watch path rec s ≡ (true, enter (normalize_windows path) item t)))
  unfolding add_watch
  add_watch_cases path rec s =
      let norm = normalize_windows path in
      let wide_path = utf8_to_utf16 E.wide norm in
      let made = E.create_file wide_path s.system in
      let u : Windows E = record s { system = made.1 } in
      elim (Bool-cases (is_empty wide_path)) [
        | inl e ↦ inl (ground arith, ground arith)
        | inr e ↦ elim (Option-cases made.0) [
          | inl n ↦ inl (ground arith, ground arith)
          | inr (h, n) ↦
              let item : WatchItem = record { path = norm; recursive = rec; h_dir = some h } in
              let opens : add_watch path rec s ≡ register norm item h u = ground arith in
              elim (register_cases norm item h u) [
                | inl (f, same) ↦
                    inl (ap (λ r. r.0) opens ∙ f, subst (λ r. Same s r.1) (sym opens) same)
                | inr (t, same, r) ↦ inr (item, t, refl, (λ x. cc), same, opens ∙ r)
              ]
        ]
      ]

  pub add_watch-IsOwned :
      (path : FilePath) (rec : Bool) (s : Windows E) → IsOwned s → IsOwned (add_watch path rec s).1
  add_watch-IsOwned path rec s o = elim (add_watch_cases path rec s) [
    | inl (f, same) ↦ Same-IsOwned s _ same o
    | inr (item, t, at, opened, same, r) ↦
        subst (λ r. IsOwned r.1) (sym r)
          (enter-IsOwned (normalize_windows path) item t at opened (Same-IsOwned s t same o))
  ]

  pub remove_watch_cases :
      (path : FilePath) (s : Windows E)
      → IsOwned s
      → let norm = normalize_windows path in
        let r = remove_watch path s in
        ((lookup norm s.watches ≡ none) × (r ≡ (false, s)))
        ⊎ ((a : ℕ) × (lookup norm s.watches ≡ some a)
            × (r.0 ≡ true)
            × (r.1.watches ≡ Dict.erase norm s.watches)
            × (r.1.items ≡ Dict.erase a s.items)
            × (r.1.next_item ≡ s.next_item))
  unfolding remove_watch close_item
  remove_watch_cases path s o = elim (Option-cases (lookup (normalize_windows path) s.watches)) [
    | inl e ↦ inl (e, ground arith)
    | inr (a, e) ↦
        let (item, l, p, h) = o.live (normalize_windows path) a e in
        let emptied = Dict.erase-insert a (record item { h_dir = none }) s.items in
        inr (a, e, ground arith, ground arith, ground (arith, emptied), ground arith)
  ]

  pub remove_watch-IsOwned :
      (path : FilePath) (s : Windows E) → IsOwned s → IsOwned (remove_watch path s).1
  remove_watch-IsOwned path s o = elim (remove_watch_cases path s o) [
    | inl (e, r) ↦ subst (λ r. IsOwned r.1) (sym r) o
    | inr (a, e, done, w, i, n) ↦
        let norm = normalize_windows path in
        record {
          live = λ p b q.
              let (item, l, at, h) =
                o.live p b (ground (arith, Dict.lookup-erase norm p s.watches)) in
              (
                item,
                ground (
                  arith,
                  Dict.lookup-erase a b s.items,
                  Dict.lookup-erase norm p s.watches,
                  o.live norm a e,
                ),
                at,
                h,
              );
          owner = λ b item q. ground (
            arith,
            Dict.lookup-erase a b s.items,
            o.owner b item,
            Dict.lookup-erase norm item.path s.watches,
            o.live norm b,
          );
          used = λ b item q. ground (arith, Dict.lookup-erase a b s.items, o.used b item);
          next = ground (arith, o.next);
        }
  ]
