-- ===== src/Tests/Instances.antt =====
-- A small world: literal patterns, a system where each path is a directory, backends that take or
-- throw, kernels that count descriptors or give one descriptor for all.
use libfilewatch.Base.{
  ℕ, ◌+◌, true, false, List, [], ◌∷◌, is_empty, if◌then◌else◌, ◌==◌, text_eq, none, some,
}
use libfilewatch.Path.{FilePath}
use libfilewatch.PathUtils.{Os, folder}
use libfilewatch.Event.{FileEvent}
use libfilewatch.Filter.{Regex}
use libfilewatch.Watcher.{Platform, returned, threw, EventCallback}
use libfilewatch.Inotify.{Kernel}

abbrev pub literal : Regex
literal = record {
  Pattern = FilePath;
  blank = [];
  compile = λ t. if is_empty t then none else some t;
  search = λ p r. p == r;
  match = λ p r. p == r;
}

abbrev pub all_folders : Os
all_folders = record { realpath = λ p. none; stat = λ p. some folder }

abbrev pub taking : Platform
taking = record {
  State = ℕ;
  add_watch = λ p r n. (returned true, n + 1);
  remove_watch = λ p n. (returned true, n);
  start = λ n. (returned true, n);
  stop = λ n. (returned tt, n);
}

abbrev pub throwing : Platform
throwing = record {
  State = ℕ;
  add_watch = λ p r n. (threw, n);
  remove_watch = λ p n. (threw, n);
  start = λ n. (threw, n);
  stop = λ n. (threw, n);
}

abbrev pub counting : Kernel
counting = record {
  State = ℕ;
  inotify_add_watch = λ p n. (some n, n + 1);
  inotify_rm_watch = λ wd n. n;
  list_dir = λ n p. none;
  stat_dir = λ n p. none;
  unset = false;
}

-- The kernel of a tree with one directory.
abbrev pub single_inode : Kernel
single_inode = record {
  State = ℕ;
  inotify_add_watch = λ p n. (some 1, n);
  inotify_rm_watch = λ wd n. n;
  list_dir = λ n p. none;
  stat_dir = λ n p. none;
  unset = false;
}

-- The client keeps the events it was handed, the last one first.
abbrev pub keep_events : EventCallback (List FileEvent)
keep_events ev w = ev ∷ w

-- "/a", "/b", "/c"
abbrev pub path_a : FilePath
path_a = 47 ∷ 97 ∷ []

abbrev pub path_b : FilePath
path_b = 47 ∷ 98 ∷ []

abbrev pub path_c : FilePath
path_c = 47 ∷ 99 ∷ []
