-- ===== src/Tests/Orders.antt =====
-- Two watches added in either order (src/FileWatcher.cpp) on concrete input.
use native.Mathlib.Nat.{ℕ_set}
use libfilewatch.Base.{ℕ, ◌+◌, ◌≡◌, refl, true, false, nat_eq, text_eq, arith}
use mathlib.Core.Quot
use libfilewatch.Event.{FileEvent}
use libfilewatch.Watcher.{Watcher, EventCallback, new_watcher, add_watch, dispatch_event}
use libfilewatch.Watcher.Unordered.{Table, Commute, add_watch_comm}
use libfilewatch.Tests.Instances.{literal, all_folders, taking, path_a, path_b}

-- The world counts the calls of the one callback once and those of the other twice.
abbrev once : EventCallback ℕ
once ev n = n + 1

abbrev twice : EventCallback ℕ
twice ev n = n + 2

once-Commute : Commute once twice
once-Commute ev n = omega arith

abbrev start : Watcher literal taking ℕ
start = new_watcher 0 0

add_watch_comm_example :
    let left =
      add_watch all_folders path_b true twice (add_watch all_folders path_a false once start).1 in
    let right =
      add_watch all_folders path_a false once (add_watch all_folders path_b true twice start).1 in
    ◌≡◌ {A = Table ℕ} (Quot.mk left.1.watches) (Quot.mk right.1.watches)
    × ((ev : FileEvent) (n : ℕ) → dispatch_event ev left.1 n ≡ dispatch_event ev right.1 n)
unfolding add_watch text_eq nat_eq
add_watch_comm_example =
    add_watch_comm ℕ_set all_folders path_a path_b false true once twice start (λ e. ground arith)
      once-Commute (refl, refl) (refl, refl)
