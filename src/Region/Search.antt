-- ===== src/Region/Search.antt =====
-- `sort.Search`, as `isReservedSector` (bde.go) calls it.
use go_bde.Base.{ℕ, zero, suc, ◌+◌, ◌/◌, ◌≤◌, ◌<◌, ◌≡◌, Bool, true, false, arith}
use go_bde.Region.{search_loop, sort_search}

module _ (f : ℕ → Bool) (t n : ℕ) (before : (m : ℕ) → m < t → f m ≡ false)
    (behind : (m : ℕ) → t ≤ m → m < n → f m ≡ true) where
  search_loop_lem :
      (fuel i j : ℕ) → i ≤ t → t ≤ j → j ≤ n → j ≤ i + fuel → search_loop fuel f i j ≡ t
  unfolding search_loop
  search_loop_lem zero i j hi hj hn hf = omega arith
  search_loop_lem (suc fuel) i j hi hj hn hf =
      let h : ℕ = (i + j) / 2 in
      ground
        (arith, before h, behind h, search_loop_lem fuel i h hi, search_loop_lem fuel (h + 1) j)

  -- A predicate that is false below `t` and true from there on to `n` has its boundary found.
  pub sort_search_lem : t ≤ n → sort_search n f ≡ t
  unfolding sort_search
  sort_search_lem h = search_loop_lem n 0 n (omega arith) h (omega arith) (omega arith)
