-- ===== src/Errc/Messages.antt =====
-- The messages of the error codes (src/FileWatcher.cpp) tell them apart.
use Prim.Native.String.{String}
use text.Mathlib.Text.{◌==◌ as str_eq}
use libfilewatch.Base.{◌≡◌, refl, sym, ap, ◌∙◌, if◌then◌else◌, nat_eq}
use libfilewatch.Errc.{
  WatcherErrc, success, invalid_path, path_not_exist, permission_denied, platform_error,
  regex_error, internal_error, already_watching, watcher_not_started, watcher_already_running,
  unknown_error, message, message_of, make_error_code,
}

-- The code that a message is for.
abbrev pub of_message : String → WatcherErrc
of_message m =
    if str_eq m "success"
    then success
    else if str_eq m "invalid path"
    then invalid_path
    else if str_eq m "path does not exist"
    then path_not_exist
    else if str_eq m "permission denied"
    then permission_denied
    else if str_eq m "platform error"
    then platform_error
    else if str_eq m "regex error"
    then regex_error
    else if str_eq m "internal error"
    then internal_error
    else if str_eq m "already watching"
    then already_watching
    else if str_eq m "watcher not started"
    then watcher_not_started
    else if str_eq m "watcher already running"
    then watcher_already_running
    else unknown_error

of_message-message_of : (e : WatcherErrc) → of_message (message_of (make_error_code e)) ≡ e
unfolding message nat_eq
of_message-message_of success = refl
of_message-message_of invalid_path = refl
of_message-message_of path_not_exist = refl
of_message-message_of permission_denied = refl
of_message-message_of platform_error = refl
of_message-message_of regex_error = refl
of_message-message_of internal_error = refl
of_message-message_of already_watching = refl
of_message-message_of watcher_not_started = refl
of_message-message_of watcher_already_running = refl
of_message-message_of unknown_error = refl

pub message_injective :
    (a b : WatcherErrc) → message_of (make_error_code a) ≡ message_of (make_error_code b) → a ≡ b
message_injective a b h =
    sym (of_message-message_of a) ∙ (ap of_message h ∙ of_message-message_of b)
