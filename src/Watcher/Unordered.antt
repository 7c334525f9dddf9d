-- ===== src/Watcher/Unordered.antt =====
-- The table of watches is an unordered map (src/FileWatcher.cpp): what the client sees does not hang
-- on its order, where the callbacks commute.
use mathlib.Core.Path.{ap₂, subst}
use mathlib.Core.Quot
use mathlib.Core.Quot.{Quot, Quot-set}
use libfilewatch.Base.{
  ◌≡◌, ◌≢◌, refl, sym, ap, ◌∙◌, inl, inr, Bool, true, false, [], ◌∷◌, ◌==◌, nat_eq, text_eq, none,
  Bool-cases, arith,
}
use libfilewatch.Base.Dict
use libfilewatch.Base.Dict.{Dict, lookup}
use libfilewatch.Path.{FilePath}
use libfilewatch.PathUtils.{Os, get_absolute_path}
use libfilewatch.Event.{FileEvent}
use libfilewatch.Filter.{Regex}
use libfilewatch.Watcher.{
  Platform, Watcher, WatchEntry, EventCallback, add_watch, takes, callbacks_for, call_all,
  dispatch_event,
}
use libfilewatch.Watcher.Watches.{add_watch_iff, added_watches}

module _ {W : Type 0} where
  -- In whichever order the two are called, they leave the same world.
  abbrev pub Commute : EventCallback W → EventCallback W → Type 0
  Commute f g = (ev : FileEvent) (w : W) → f ev (g ev w) ≡ g ev (f ev w)

  -- Two entries that stand side by side have changed places.
  pub data IsSwapped : Dict FilePath (WatchEntry W) → Dict FilePath (WatchEntry W) → Type 0 where
    at_head :
        (a b : FilePath × WatchEntry W) (d : Dict FilePath (WatchEntry W))
        → Commute a.1.callback b.1.callback
        → IsSwapped (a ∷ b ∷ d) (b ∷ a ∷ d)
    below :
        (a : FilePath × WatchEntry W) (d e : Dict FilePath (WatchEntry W))
        → IsSwapped d e
        → IsSwapped (a ∷ d) (a ∷ e)

  abbrev pub dispatched : FileEvent → Dict FilePath (WatchEntry W) → W → W
  dispatched ev d w = call_all (callbacks_for d ev) ev w

  pub IsSwapped-dispatched :
      (ev : FileEvent) (d e : Dict FilePath (WatchEntry W)) (w : W)
      → IsSwapped d e
      → dispatched ev d w ≡ dispatched ev e w
  unfolding callbacks_for call_all
  IsSwapped-dispatched ev _ _ w (at_head a b d c) = elim (Bool-cases (takes ev a)) [
    | inl t ↦ elim (Bool-cases (takes ev b)) [
      | inl u ↦ rw (t, u) (ap (λ x. dispatched ev d x) (sym (c ev w)))
      | inr u ↦ rw (t, u) refl
    ]
    | inr t ↦ elim (Bool-cases (takes ev b)) [ inl u ↦ rw (t, u) refl | inr u ↦ rw (t, u) refl ]
  ]
  IsSwapped-dispatched ev _ _ w (below a d e h) = elim (Bool-cases (takes ev a)) [
    | inl t ↦ rw t (IsSwapped-dispatched ev d e (a.1.callback ev w) h)
    | inr t ↦ rw t (IsSwapped-dispatched ev d e w h)
  ]

-- The table without its order.
abbrev pub Table : Type 0 → Type 0
Table W = Quot (IsSwapped {W = W})

-- What the client sees of a table without order.
abbrev pub dispatch_table : {W : Type 0} → IsSet W → FileEvent → Table W → W → W
dispatch_table set ev q w =
    Quot.lift set (λ d. dispatched ev d w) (λ d e h. IsSwapped-dispatched ev d e w h) q

insert_past :
    {W : Type 0} (p r : FilePath) (e g : WatchEntry W) (d : Dict FilePath (WatchEntry W))
    → (p == r) ≡ false
    → Dict.insert p e ((r, g) ∷ d) ≡ (r, g) ∷ Dict.insert p e d
unfolding Dict.insert
insert_past p r e g d h = rw h refl

insert-IsSwapped :
    {W : Type 0} (p q : FilePath) (e f : WatchEntry W) (d : Dict FilePath (WatchEntry W))
    → p ≢ q
    → lookup p d ≡ none
    → lookup q d ≡ none
    → Commute e.callback f.callback
    → IsSwapped (Dict.insert q f (Dict.insert p e d)) (Dict.insert p e (Dict.insert q f d))
unfolding Dict.insert
insert-IsSwapped p q e f [] n a b c =
    let first : (q == p) ≡ false = ground arith in
    let second : (p == q) ≡ false = ground arith in rw (first, second) (at_head (p, e) (q, f) [] c)
insert-IsSwapped {W} p q e f ((r, g) ∷ d) n a b c =
    let with_p = insert_past p r e g in
    let with_q = insert_past q r f g in
    let np : (p == r) ≡ false = ground arith in
    let nq : (q == r) ≡ false = ground arith in
    let rest = insert-IsSwapped p q e f d n (ground arith) (ground arith) c in
    subst (λ (x : Dict FilePath (WatchEntry W) × Dict FilePath (WatchEntry W)). IsSwapped x.0 x.1)
      (ap₂ (λ x y. (x, y))
        (sym (ap (Dict.insert q f) (with_p d np) ∙ with_q (Dict.insert p e d) nq))
        (sym (ap (Dict.insert p e) (with_q d nq) ∙ with_p (Dict.insert q f d) np)))
      (below (r, g) (Dict.insert q f (Dict.insert p e d)) (Dict.insert p e (Dict.insert q f d))
        rest)

module _ {X : Regex} {P : Platform} {W : Type 0} where
  added_into :
      (os : Os) (path : FilePath) (rec : Bool) (cb : EventCallback W) (s : Watcher X P W)
      → (add_watch os path rec cb s).0 ≡ true
      → ((add_watch os path rec cb s).1.watches
          ≡ Dict.insert
              (get_absolute_path os path)
              (record { callback = cb; recursive = rec })
              s.watches)
        × (lookup (get_absolute_path os path) s.watches ≡ none)
  added_into os path rec cb s h =
      let ((n, there, fresh), answer) = (add_watch_iff os path rec cb s).0 h in
      (ground (arith, added_watches os path rec cb s), fresh)

  -- When two watches are added, of different paths and with callbacks that commute, and all calls
  -- succeed, then in whichever order that is done, the tables are the same but for their order, and
  -- each event that is dispatched leaves the same world, if the world is a set.
  pub add_watch_comm :
      (set : IsSet W) (os : Os) (p q : FilePath) (rp rq : Bool) (f g : EventCallback W)
      (s : Watcher X P W)
      → let first = add_watch os p rp f s in
        let then_q = add_watch os q rq g first.1 in
        let second = add_watch os q rq g s in
        let then_p = add_watch os p rp f second.1 in
        get_absolute_path os p ≢ get_absolute_path os q
        → Commute f g
        → (first.0 ≡ true) × (then_q.0 ≡ true)
        → (second.0 ≡ true) × (then_p.0 ≡ true)
        → ◌≡◌ {A = Table W} (Quot.mk then_q.1.watches) (Quot.mk then_p.1.watches)
          × ((ev : FileEvent) (w : W) → dispatch_event ev then_q.1 w ≡ dispatch_event ev then_p.1 w)
  unfolding dispatch_event
  add_watch_comm set os p q rp rq f g s n c (a, b) (k, l) =
      let first = add_watch os p rp f s in
      let then_q = add_watch os q rq g first.1 in
      let second = add_watch os q rq g s in
      let then_p = add_watch os p rp f second.1 in
      let np = get_absolute_path os p in
      let nq = get_absolute_path os q in
      let e : WatchEntry W = record { callback = f; recursive = rp } in
      let h : WatchEntry W = record { callback = g; recursive = rq } in
      let (at_p, no_p) = added_into os p rp f s a in
      let (at_pq, no_pq) = added_into os q rq g first.1 b in
      let (at_q, no_q) = added_into os q rq g s k in
      let (at_qp, no_qp) = added_into os p rp f second.1 l in
      let one : then_q.1.watches ≡ Dict.insert nq h (Dict.insert np e s.watches) =
        at_pq ∙ ap (Dict.insert nq h) at_p in
      let other : then_p.1.watches ≡ Dict.insert np e (Dict.insert nq h s.watches) =
        at_qp ∙ ap (Dict.insert np e) at_q in
      let same : ◌≡◌ {A = Table W} (Quot.mk then_q.1.watches) (Quot.mk then_p.1.watches) =
        ap Quot.mk one
        ∙ (Quot.sound (insert-IsSwapped np nq e h s.watches n no_p no_q c)
            ∙ sym (ap Quot.mk other)) in
      (same, λ ev w. ap (λ t. dispatch_table set ev t w) same)
