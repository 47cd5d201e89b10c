-- ===== src/Api/Wellbeing/Tests.antt =====
-- A run of wellbeing.service.ts.
use nestai.Prelude.{◌≡◌, refl, [], none, some, String, Option}
use nestai.Prelude.Results.{throw, invalid_date}
use nestai.Contracts.Entities.{IsoDateTime}
use nestai.Core.Samples.{family}
use nestai.Api.Table.Fresh.{draw_id}
use nestai.Api.Table.Rows.{list_table}
use nestai.Api.Wellbeing.{suggest_windows}

abbrev no_dates : String → Option IsoDateTime
no_dates text = none

range_is_refused :
    suggest_windows
      (list_table (λ m. m.id))
      (list_table (λ g. g.id))
      (list_table (λ b. b.id))
      (list_table (λ w. w.id))
      no_dates
      (draw_id (λ w. w.id))
      (some "h-1")
      family
      []
      []
      "mum"
      "today"
      "tomorrow"
      []
    ≡ ([], throw invalid_date)
unfolding suggest_windows
range_is_refused = refl
