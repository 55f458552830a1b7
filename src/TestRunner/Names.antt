-- ===== src/TestRunner/Names.antt =====
-- The names of the runners.
use cw_it.Base.{◌≡◌, arith, bytes_eq}
use cw_it.Text.{Text}
use cw_it.Chain.{ok}
use cw_it.TestRunner.Types.{OwnedTestRunner}
use cw_it.TestRunner.{from_str, owned_fmt, fmt, as_ref}

-- A runner that `from_str` gives for a name prints as that name, owned or borrowed.
fmt-from_str :
    {O C R M : Type 0} (new_osmosis : O) (new_coreum : C) (new_multi_test : M) (s : Text)
    (r : OwnedTestRunner O C R M)
    → from_str new_osmosis new_coreum new_multi_test s ≡ ok r
    → (owned_fmt r ≡ ok s) × (fmt (as_ref r) ≡ ok s)
unfolding from_str owned_fmt fmt as_ref
fmt-from_str new_osmosis new_coreum new_multi_test s r h = ground arith
