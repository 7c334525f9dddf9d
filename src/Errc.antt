-- ===== src/Errc.antt =====
-- The error codes of include/filewatch/FileWatcher.h and their messages (src/FileWatcher.cpp).
pub mod Messages
use Prim.Native.String.{String}
use libfilewatch.Base.{ℕ, if◌then◌else◌, ◌==◌, nat_eq}

pub data WatcherErrc : Type 0 where
  success invalid_path path_not_exist permission_denied platform_error regex_error : WatcherErrc
  internal_error already_watching watcher_not_started watcher_already_running : WatcherErrc
  unknown_error : WatcherErrc

-- `static_cast<int>(e)`
abbrev pub errc_value : WatcherErrc → ℕ
errc_value success = 0
errc_value invalid_path = 1
errc_value path_not_exist = 2
errc_value permission_denied = 3
errc_value platform_error = 4
errc_value regex_error = 5
errc_value internal_error = 6
errc_value already_watching = 7
errc_value watcher_not_started = 8
errc_value watcher_already_running = 9
errc_value unknown_error = 10

-- `watcher_error_category::message`; the cases of the switch in order, and its default.
unfoldable pub message : ℕ → String
message ev =
    if ev == 0
    then "success"
    else if ev == 1
    then "invalid path"
    else if ev == 2
    then "path does not exist"
    else if ev == 3
    then "permission denied"
    else if ev == 4
    then "platform error"
    else if ev == 5
    then "regex error"
    else if ev == 6
    then "internal error"
    else if ev == 7
    then "already watching"
    else if ev == 8
    then "watcher not started"
    else if ev == 9
    then "watcher already running"
    else if ev == 10
    then "unknown error"
    else "unknown error"

-- The only category of the library; `category_name` is its `name`.
pub data ErrorCategory : Type 0 where
  watcher_category : ErrorCategory

abbrev pub category_name : ErrorCategory → String
category_name watcher_category = "filewatch"

-- `std::error_code` with a category of the library.
pub record ErrorCode : Type 0 where
  pub value : ℕ
  pub category : ErrorCategory

abbrev pub make_error_code : WatcherErrc → ErrorCode
make_error_code e = record { value = errc_value e; category = watcher_category }

abbrev pub message_of : ErrorCode → String
message_of c = message c.value
