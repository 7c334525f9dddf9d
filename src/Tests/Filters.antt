-- ===== src/Tests/Filters.antt =====
-- The filter (src/FileWatcher.cpp) on concrete input.
use libfilewatch.Base.{◌≡◌, ◌↔◌, true, List, [], ◌∷◌, nat_eq, text_eq}
use libfilewatch.Path.{FilePath}
use libfilewatch.Event.{modify, file, file_event}
use libfilewatch.Filter.{Filter, blank_filter, passes}
use libfilewatch.Filter.Passes.{IsPassed, passes_iff}
use libfilewatch.Filter.Setters
use libfilewatch.Filter.Setters.{Setter, configure, IsSound, configure-blank-IsSound}
use libfilewatch.Tests.Instances.{literal}

-- "/a.c"
abbrev source_file : FilePath
source_file = 47 ∷ 97 ∷ 46 ∷ 99 ∷ []

abbrev dot_c : FilePath
dot_c = 46 ∷ 99 ∷ []

abbrev only_c : Filter literal
only_c = record (blank_filter {X = literal}) { extensions = dot_c ∷ [] }

passes_iff_example :
    (passes only_c (file_event modify source_file file) ≡ true)
    ↔ IsPassed only_c (file_event modify source_file file)
passes_iff_example = passes_iff only_c (file_event modify source_file file)

abbrev calls : List Setter
calls = Setters.exclude_path (47 ∷ 97 ∷ 47 ∷ []) ∷ Setters.extensions (dot_c ∷ []) ∷ []

configure-blank-IsSound_example : IsSound {X = literal} (configure calls blank_filter)
configure-blank-IsSound_example = configure-blank-IsSound literal calls
