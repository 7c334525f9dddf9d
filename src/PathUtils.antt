-- ===== src/PathUtils.antt =====
-- `PathUtils` (src/utils/PathUtils.cpp) where the system is POSIX. The system calls `realpath` and
-- `stat` are the parameter `Os`: `none` is their failure.
pub mod OnWindows
use libfilewatch.Base.{Bool, true, false, Option, none, some}
use libfilewatch.Path.{FilePath}

-- What `S_ISDIR` and `S_ISREG` tell of a file.
pub data Mode : Type 0 where
  regular folder special : Mode

pub record Os : Type 0 where
  pub realpath : FilePath → Option FilePath
  pub stat : FilePath → Option Mode

abbrev pub normalize : FilePath → FilePath
normalize path = path

abbrev pub get_absolute_path : Os → FilePath → FilePath
get_absolute_path os path = elim (os.realpath path) [ some buffer ↦ buffer | none ↦ path ]

abbrev pub exists : Os → FilePath → Bool
exists os path = elim (os.stat path) [ some _ ↦ true | none ↦ false ]

abbrev pub is_directory : Os → FilePath → Bool
is_directory os path = elim (os.stat path) [
  | some m ↦ elim m [ folder ↦ true | _ ↦ false ]
  | none ↦ false
]

abbrev pub is_file : Os → FilePath → Bool
is_file os path = elim (os.stat path) [
  | some m ↦ elim m [ regular ↦ true | _ ↦ false ]
  | none ↦ false
]
