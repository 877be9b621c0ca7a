-- ===== src/Statsd/Tests.antt =====
-- Runs of the metrics on concrete inputs: utils/statsd/src/metrics.rs.
use gstsmith_rs.Prelude.{ℕ, ◌≡◌, refl, true, false, Option, none, some, [], ◌∷◌, arith, codes}
use gstsmith_rs.Statsd.Interval.{default_snapshot}
use gstsmith_rs.Statsd.Interval.Recorded.{Recorded, gaps, climb, observe_all, observe_all-Recorded}
use gstsmith_rs.Statsd.Tags.{sanitize_tag_value}
use gstsmith_rs.Statsd.Tags.Clean.{IsTagValue, sanitize_tag_value-IsTagValue}
use gstsmith_rs.Statsd.State.{tracked, Metrics, Element, Pad, new, lookup, included}
use gstsmith_rs.Statsd.Pads.{register, update_pad, remove_pad_key}
use gstsmith_rs.Statsd.Pads.Valid.{IsValid, new-IsValid, update_pad-IsValid}
use gstsmith_rs.Statsd.Pads.Places.{Kept, Reach-Placed}
use gstsmith_rs.Statsd.Pads.Steps.{Reach, begun, after, registered, removed, Reach-IsValid}
use gstsmith_rs.Statsd.Pads.Slots.{update_pad-remove_pad_key}
use gstsmith_rs.Statsd.Pipelines.{Pipeline, set_pipeline_state}

abbrev empty-Recorded : Recorded [] default_snapshot
empty-Recorded = record { all_counted = refl; all_summed = refl; in_buckets = refl }

-- The third timestamp came out of order.
observe_all-Recorded_example :
    Recorded
      (gaps (climb 0 (10 ∷ 1_000_010 ∷ 20 ∷ 7_000_010 ∷ [])))
      (observe_all (10 ∷ 1_000_010 ∷ 20 ∷ 7_000_010 ∷ []) default_snapshot)
observe_all-Recorded_example =
    observe_all-Recorded (10 ∷ 1_000_010 ∷ 20 ∷ 7_000_010 ∷ []) [] default_snapshot refl
      empty-Recorded

out_of_order : gaps (climb 0 (10 ∷ 1_000_010 ∷ 20 ∷ 7_000_010 ∷ [])) ≡ 1_000_000 ∷ 6_000_000 ∷ []
out_of_order = refl

after_reset : gaps (climb 50 (30 ∷ 60 ∷ 90 ∷ [])) ≡ 30 ∷ []
after_reset = refl

sanitize_tag_value-IsTagValue_example :
    IsTagValue (sanitize_tag_value []) × (IsTagValue [] → sanitize_tag_value [] ≡ [])
sanitize_tag_value-IsTagValue_example = sanitize_tag_value-IsTagValue []

clean_text : sanitize_tag_value (codes "a,b|c:d\n☃") ≡ codes "a_b_c_d__"
unfolding sanitize_tag_value
clean_text = refl

abbrev element_a : Element
element_a = record { key = 100; path_string = codes "a" }

abbrev pad_a : Pad
pad_a = record { key = 1; name = codes "src"; parent = some element_a }

abbrev pad_b : Pad
pad_b = record { key = 2; name = codes "src"; parent = some element_a }

abbrev fresh : Metrics
fresh = new none none 1 false

abbrev one_tracked : Metrics
one_tracked = update_pad pad_a 3 30 0 fresh

one_tracked-IsValid : IsValid one_tracked
one_tracked-IsValid = update_pad-IsValid pad_a 3 30 0 fresh (new-IsValid none none 1 false)

abbrev two_registered : Metrics
two_registered =
    register 2 true (codes "a") (codes "src") 100 1 1 0
      (register 1 true (codes "a") (codes "src") 100 3 30 0 fresh)

abbrev two_registered-Reach : Reach none none 1 false 0 (remove_pad_key 1 two_registered)
two_registered-Reach =
    after
      (after (after begun (registered 1 true (codes "a") (codes "src") 100 3 30 0))
        (registered 2 true (codes "a") (codes "src") 100 1 1 0))
      (removed 1)

Reach-IsValid_example : IsValid (remove_pad_key 1 two_registered)
Reach-IsValid_example = Reach-IsValid two_registered-Reach

Reach-Placed_example : Kept (remove_pad_key 1 two_registered) 0
Reach-Placed_example = Reach-Placed two_registered-Reach

one_found : lookup 1 one_tracked.pads ≡ some (tracked 0)
unfolding update_pad new included
one_found = refl

update_pad-remove_pad_key_example :
    lookup 2 (update_pad pad_b 5 50 0 (remove_pad_key 1 one_tracked)).pads ≡ some (tracked 1)
unfolding update_pad new included
update_pad-remove_pad_key_example =
    update_pad-remove_pad_key 1 0 pad_b element_a 5 50 0 one_tracked one_tracked-IsValid one_found
      refl refl refl (omega arith)

abbrev player : Pipeline
player = record { key = 7; weak = 70; name = codes "player" }

abbrev playing : ℕ → Option ℕ
playing weak = some 4

abbrev gone : ℕ → Option ℕ
gone weak = none

abbrev watched : Metrics
watched = set_pipeline_state player fresh
