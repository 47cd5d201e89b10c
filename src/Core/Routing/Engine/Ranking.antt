-- ===== src/Core/Routing/Engine/Ranking.antt =====
-- engine.ts: the comparator of the candidates is a total order, so the first is the best.
use nestai.Prelude.{◌≡◌, true, false, List, arith}
use nestai.Prelude.Int.{◌≤ℤ◌}
use nestai.Prelude.Sorting.{sort_by, IsSorted, sort_by-IsSorted}
use nestai.Contracts.Entities.{RoutingRule}
use nestai.Core.Locale.{Locale}
use nestai.Core.Routing.Engine.{Candidate, before, by_priority}

before_total :
    (locale : Locale) (a b : Candidate) → before locale a b ≡ false → before locale b a ≡ true
before_total locale a b h = ground (arith, locale.le_total a.member.id b.member.id)

before_trans :
    (locale : Locale) (a b c : Candidate)
    → before locale a b ≡ true
    → before locale b c ≡ true
    → before locale a c ≡ true
before_trans locale a b c h k = ground (arith, locale.le_trans a.member.id b.member.id c.member.id)

pub before-score :
    (locale : Locale) (a b : Candidate) → before locale a b ≡ true → b.score ≤ℤ a.score
before-score locale a b h = ground arith

pub ranked-IsSorted :
    (locale : Locale) (cs : List Candidate) → IsSorted (before locale) (sort_by (before locale) cs)
ranked-IsSorted locale cs =
    sort_by-IsSorted (before locale) (before_total locale) (before_trans locale) cs

by_priority_total : (a b : RoutingRule) → by_priority a b ≡ false → by_priority b a ≡ true
by_priority_total a b h = ground arith

by_priority_trans :
    (a b c : RoutingRule) → by_priority a b ≡ true → by_priority b c ≡ true → by_priority a c ≡ true
by_priority_trans a b c h k = ground arith

pub rules-IsSorted : (rs : List RoutingRule) → IsSorted by_priority (sort_by by_priority rs)
rules-IsSorted rs = sort_by-IsSorted by_priority by_priority_total by_priority_trans rs
