-- ===== src/Witness/LedgerRuns.antt =====
-- A page of a ledger with three entries, whose numbers leave a gap.
use syrinx.Common.{◌≡◌, refl, [], ◌∷◌, arith}
use syrinx.Ledger.Chain.{IsChain}
use syrinx.Ledger.Pages.{get_ledger_tail}
use syrinx.Ledger.Pages.Tail.{get_ledger_tail-take}
use syrinx.Witness.Data.{numbered, three}

chained : IsChain three
chained = (refl, omega arith, (refl, omega arith, (refl, omega arith, omega arith)))

get_ledger_tail-take_example : get_ledger_tail three 1 1 ≡ numbered 3 1 ∷ []
get_ledger_tail-take_example =
    get_ledger_tail-take three [] (numbered 1 0) (numbered 3 1 ∷ numbered 4 3 ∷ []) 1 chained refl
      (omega arith)
