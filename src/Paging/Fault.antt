-- ===== src/Paging/Fault.antt =====
-- `page_fault` of IcarusOS/paging.c: what it says of the error, and that it never returns. The texts
-- are named by their words; the address is that of the machine's register cr2, and is not modelled.
use cmsi.Base.{ℕ, ◌/◌, ◌%◌, ◌==◌, if◌then◌else◌, List, [], ◌∷◌, ◌++◌}
use cmsi.Base.Outcome.{Outcome, stop, panicked}

pub data FaultWord : Type 0 where
  present_word read_only_word user_mode_word reserved_word : FaultWord

-- "present" is said where the bit of a present page is clear.
unfoldable pub page_fault_words : (err_code : ℕ) → List FaultWord
page_fault_words err_code =
    (if err_code % 2 == 0 then present_word ∷ [] else [])
    ++ ((if err_code / 2 % 2 == 0 then [] else read_only_word ∷ [])
        ++ ((if err_code / 4 % 2 == 0 then [] else user_mode_word ∷ [])
            ++ (if err_code / 8 % 2 == 0 then [] else reserved_word ∷ [])))

-- What is printed, and the end of the run.
unfoldable pub page_fault : (err_code : ℕ) → List FaultWord × Outcome (Unit {0})
page_fault err_code = (page_fault_words err_code, stop panicked)
