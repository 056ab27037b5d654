-- ===== src/Divergence/Split.antt =====
-- What `Tracker.report` of internal/divergence/tracker.go says of a round.
use mathlib.Core.List.{Perm}
use cmt_top.Base.Int.{pos, ltb}
use cmt_top.Base.{◌&&◌, Bool}
use cmt_top.Base.{
  ◌≡◌, refl, Bool, true, false, not, List, [], ◌∷◌, map, ◌==◌, String_eq, arith, any_of, drop, keep,
  insert_by, sort_by, sort_by-perm, sort_by-keeps,
}
use cmt_top.Base.Int.{◌≤ℤ◌}
use cmt_top.Divergence.Types.{Group, RoundData, Config, Floats}
use cmt_top.Divergence.Report.{group_of, group_before, is_heavy, scan_divergent, report}

abbrev pub is_block : Group → Bool
is_block g = not (g.block_id_hash == "")

-- Each group has at most the power of the one before it.
abbrev pub Falling : List Group → Type 0
Falling [] = Unit
Falling (a ∷ []) = Unit
Falling (a ∷ b ∷ gs) = (b.voting_power ≤ℤ a.voting_power) × Falling (b ∷ gs)

insert_by-Falling :
    (fl : Floats) (g : Group) (gs : List Group)
    → Falling gs
    → Falling (insert_by (group_before fl) g gs)
unfolding group_before
insert_by-Falling fl g [] h = tt
insert_by-Falling fl g (a ∷ []) h = ground arith
insert_by-Falling fl g (a ∷ b ∷ gs) h = ground (arith, insert_by-Falling fl g (b ∷ gs) h.1)

sort_by-Falling : (fl : Floats) (gs : List Group) → Falling (sort_by (group_before fl) gs)
sort_by-Falling fl gs = sort_by-keeps Falling (group_before fl) tt (insert_by-Falling fl) gs

scan-with_leader :
    (fl : Floats) (cfg : Config) (gs : List Group)
    → scan_divergent fl cfg true gs ≡ any_of (is_heavy fl cfg) (keep is_block gs)
unfolding scan_divergent
scan-with_leader fl cfg [] = refl
scan-with_leader fl cfg (g ∷ gs) = ground (arith, scan-with_leader fl cfg gs)

scan-without_leader :
    (fl : Floats) (cfg : Config) (gs : List Group)
    → scan_divergent fl cfg false gs ≡ any_of (is_heavy fl cfg) (drop 1 (keep is_block gs))
unfolding scan_divergent
scan-without_leader fl cfg [] = refl
scan-without_leader fl cfg (g ∷ gs) =
    ground (arith, scan-without_leader fl cfg gs, scan-with_leader fl cfg gs)

-- The group's percentage reaches the threshold, and it has power.
abbrev pub reaches : Floats → Config → Group → Bool
reaches fl cfg g = fl.geb g.voting_power_pct cfg.threshold_pct && ltb (pos 0) g.voting_power

-- The groups of a report are those of the round's votes, each once, by falling power; and the round
-- is divergent exactly if, of the groups that are for a block, one after the first reaches the
-- threshold and has power.
pub report-Splits :
    (fl : Floats) (cfg : Config) (rd : RoundData)
    → Perm (report fl cfg rd).groups (map (group_of fl rd) rd.groups)
      × Falling (report fl cfg rd).groups
      × ((report fl cfg rd).is_divergent
          ≡ any_of (reaches fl cfg) (drop 1 (keep is_block (report fl cfg rd).groups)))
unfolding report is_heavy
report-Splits fl cfg rd = (
  sort_by-perm (group_before fl) (map (group_of fl rd) rd.groups),
  sort_by-Falling fl (map (group_of fl rd) rd.groups),
  scan-without_leader fl cfg _,
)
