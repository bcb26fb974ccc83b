-- ===== src/Lob/Level/Tests.antt =====
-- The list of a level of luv_lob.hpp that is empty, and takes its first order.
use fort.Base.{◌≡◌, refl, true, some, [], ◌∷◌, ◌++◌, arith}
use fort.Base.Int.{pos}
use fort.Lob.Level.{PriceLevel, reset_level, alloc_slot, is_active, fill_slot, link_slot, free_slot}
use fort.Lob.Level.Chain.{erase}
use fort.Lob.Level.Queue.{entered-IsQueue, vacated-IsQueue}
use fort.Lob.Level.Listed.{IsQueue, reset-IsQueue, refs}

first_free : alloc_slot reset_level ≡ some 0
unfolding alloc_slot is_active
first_free = refl

abbrev one_order : PriceLevel
one_order = link_slot (fill_slot reset_level 0 77 (pos 5) 1) 0

entered-IsQueue_example :
    IsQueue one_order ([] ++ 0 ∷ [])
    × (refs one_order ([] ++ 0 ∷ []) ≡ refs reset_level [] ++ 77 ∷ [])
entered-IsQueue_example = entered-IsQueue reset_level 0 77 (pos 5) 1 [] reset-IsQueue first_free

one_order-IsQueue : IsQueue one_order ([] ++ 0 ∷ [])
one_order-IsQueue = entered-IsQueue_lemma.0
  where
    entered-IsQueue_lemma :
        IsQueue one_order ([] ++ 0 ∷ [])
        × (refs one_order ([] ++ 0 ∷ []) ≡ refs reset_level [] ++ 77 ∷ [])
    entered-IsQueue_lemma = entered-IsQueue reset_level 0 77 (pos 5) 1 [] reset-IsQueue first_free

one_order-active : is_active (one_order.orders 0) ≡ true
unfolding is_active fill_slot link_slot
one_order-active = refl

vacated-IsQueue_example :
    IsQueue (free_slot one_order 0) (erase 0 (0 ∷ []))
    × (refs (free_slot one_order 0) (erase 0 (0 ∷ [])) ≡ refs one_order (erase 0 (0 ∷ [])))
vacated-IsQueue_example =
    vacated-IsQueue one_order 0 (0 ∷ []) one_order-IsQueue (omega arith) one_order-active
