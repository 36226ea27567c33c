-- ===== src/Tests/Regions.antt =====
-- Regions: a list with an overlap, a touching pair and an empty region.
use go_bde.Base.{◌≡◌, refl, List, [], ◌∷◌, arith, true}
use go_bde.Base.Int.{ℤ, pos, ◌+ℤ◌}
use go_bde.Region.{set_reserved_regions, is_reserved_sector}
use go_bde.Region.Merge.{IsSeparated, set_reserved_regions-IsSeparated}
use go_bde.Region.Lookup.{is_reserved_sector-set_reserved_regions}

abbrev four : List (ℤ × ℤ)
four = (pos 40, pos 8) ∷ (pos 8, pos 4) ∷ (pos 12, pos 4) ∷ (pos 44, pos 0) ∷ []

set_four :
    set_reserved_regions four
    ≡ record { start_sector = pos 8; end_sector = pos 16 }
      ∷ record { start_sector = pos 40; end_sector = pos 48 }
      ∷ []
unfolding set_reserved_regions ◌+ℤ◌
set_four = refl

set_reserved_regions-IsSeparated_example : IsSeparated (set_reserved_regions four)
set_reserved_regions-IsSeparated_example = set_reserved_regions-IsSeparated four (omega arith)

is_reserved_sector-set_reserved_regions_example :
    is_reserved_sector (set_reserved_regions four) (pos 13) ≡ true
is_reserved_sector-set_reserved_regions_example =
    is_reserved_sector-set_reserved_regions four (pos 13) (omega arith)
