-- ===== src/Symbols/Tests.antt =====
-- A table of two symbols.
use wyrm_os.Base.{true, false, List, [], ◌∷◌}
use wyrm_os.Symbols.{Symbol}

abbrev table : List Symbol
table =
    record { address = 0xFFFFFFFF80001000; internal = false; name = 97 ∷ [] }
    ∷ record { address = 0xFFFFFFFF80002000; internal = true; name = 98 ∷ [] }
    ∷ []
