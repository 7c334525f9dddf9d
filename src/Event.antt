-- ===== src/Event.antt =====
-- include/filewatch/Event.h and src/Event.cpp. Reading a field stands for its getter.
use libfilewatch.Base.{◌≡◌, ◌↔◌, Bool, true, false, [], arith}
use libfilewatch.Path.{FilePath}

pub data EventType : Type 0 where
  create modify delete rename : EventType

pub data PathType : Type 0 where
  file directory : PathType

pub record FileEvent : Type 0 where
  pub event_type : EventType
  pub path : FilePath
  pub path_type : PathType
  pub old_path : FilePath
  pub old_path_type : PathType

-- The constructor with its two default arguments.
abbrev pub file_event : EventType → FilePath → PathType → FileEvent
file_event t p k = record {
  event_type = t;
  path = p;
  path_type = k;
  old_path = [];
  old_path_type = file;
}

-- The constructor with all five arguments.
abbrev pub file_event_from : EventType → FilePath → PathType → FilePath → PathType → FileEvent
file_event_from t p k o ok = record {
  event_type = t;
  path = p;
  path_type = k;
  old_path = o;
  old_path_type = ok;
}

-- `==` of the two enumerations.
abbrev pub same_type : EventType → EventType → Bool
same_type create create = true
same_type modify modify = true
same_type delete delete = true
same_type rename rename = true
same_type _ _ = false

abbrev pub same_path_type : PathType → PathType → Bool
same_path_type file file = true
same_path_type directory directory = true
same_path_type _ _ = false

pub same_type_iff : (s t : EventType) → (same_type s t ≡ true) ↔ (s ≡ t)
same_type_iff s t = ground arith

pub same_path_type_iff : (s t : PathType) → (same_path_type s t ≡ true) ↔ (s ≡ t)
same_path_type_iff s t = ground arith
