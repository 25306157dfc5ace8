-- ===== src/Tests/Strategies.antt =====
-- The theorems on rules and on the tape, applied.
use alvo_backtester.Base.{
  ℕ, hundredths, Hundredths, ◌≡◌, ◌+◌, ◌<◌, refl, ap, arith, true, Option, none, some, ltb, ◌==◌,
  if◌then◌else◌, List, [], ◌∷◌,
}
use alvo_backtester.Strategy.Spec.{Field, field_value}
use alvo_backtester.Indicator.{Candle}
use alvo_backtester.Strategy.Eval.{
  Frame, Rule, any_rule, all_rule, not_rule, nil, cons, eval, depth, eval_compare, plain, term_at,
  at, read, eval_any, extra_of, compare_depth, term_depth,
}
use alvo_backtester.Strategy.Information.{Refines, eval-Settles}
use alvo_backtester.Strategy.Lookback.{Agree, eval-depth}
use alvo_backtester.Strategy.Kleene.{truth, conjunction, disjunction, not₃, eval_kleene}
use alvo_backtester.Strategy.Tape.{Tape, push, prime, new_tape, tape_slot, tape_field}
use alvo_backtester.Strategy.Tape.Shift.{IsRing, push-IsRing, push_shifts, new_tape-IsRing}
use alvo_backtester.Strategy.Tape.Primed.{HoldsBars, new_tape-prime}
use alvo_backtester.Backtest.Book.{candle_for}
use alvo_backtester.Tests.Sample.{
  last_close, cents, above, below, crossing, sample_plan, sample_units, bar,
}

-- The first frame knows one bar, and no slot.
abbrev early : Frame Hundredths
early = record {
  slot = λ s back. none;
  field = λ c back. if back == 0 then some (cents 1100) else none;
}

abbrev full : Frame Hundredths
full = record { slot = λ s back. some (cents 1100); field = λ c back. some (cents 1100) }

early-Refines : Refines early full
early-Refines = record { slot = λ s back x h. cc; field = λ c back x h. ground arith }

abbrev choice : Rule Hundredths
choice = any_rule (cons above (cons (not_rule below) nil))

choice-early : eval choice early ≡ (true, true)
unfolding eval eval_any eval_compare plain term_at at read
choice-early = refl

eval-Settles_example : eval choice full ≡ eval choice early
eval-Settles_example = eval-Settles early-Refines choice (ap (λ v. v.1) choice-early)

-- Frames that agree on two bars.
abbrev short_memory : Frame Hundredths
short_memory = record {
  slot = λ s back. none;
  field = λ c back. if ltb back 2 then some (cents 1100) else none;
}

abbrev long_memory : Frame Hundredths
long_memory = record { slot = λ s back. none; field = λ c back. some (cents 1100) }

memories-Agree : Agree 1 short_memory long_memory
memories-Agree = record { slot = λ s back h. refl; field = λ c back h. ground arith }

eval-depth_example : eval crossing short_memory ≡ eval crossing long_memory
unfolding depth compare_depth term_depth extra_of
eval-depth_example = eval-depth memories-Agree crossing (omega arith)

eval_kleene_example :
    (truth (eval (all_rule (cons above (cons below nil))) early)
      ≡ conjunction (cons above (cons below nil)) early)
    × (truth (eval (any_rule (cons above (cons below nil))) early)
        ≡ disjunction (cons above (cons below nil)) early)
    × (truth (eval (not_rule below) early) ≡ not₃ (truth (eval below early)))
eval_kleene_example = eval_kleene (cons above (cons below nil)) below early

abbrev fresh_tape : Tape Hundredths
fresh_tape = (new_tape sample_plan sample_units).1

abbrev sample : Candle Hundredths
sample = candle_for (bar 1 950)

abbrev pushed : Tape Hundredths
pushed = (push sample_plan sample sample_units fresh_tape).1

abbrev two_samples : List (Candle Hundredths)
two_samples = sample ∷ candle_for (bar 2 960) ∷ []

new_tape-prime_example :
    HoldsBars sample_plan
      (prime sample_plan two_samples
        (new_tape sample_plan sample_units).0
        (new_tape sample_plan sample_units).1).1
      (candle_for (bar 2 960) ∷ sample ∷ [])
new_tape-prime_example = new_tape-prime sample_plan sample_units two_samples

fresh_tape-IsRing : IsRing fresh_tape
fresh_tape-IsRing = new_tape-IsRing sample_plan sample_units

push-IsRing_example : IsRing pushed × (pushed.filled ≡ fresh_tape.filled + 1)
push-IsRing_example = push-IsRing sample_plan sample sample_units fresh_tape fresh_tape-IsRing

push_shifts_example :
    ((s : Option ℕ) (back : ℕ)
      → back + 1 < fresh_tape.size
      → tape_slot pushed s (back + 1) ≡ tape_slot fresh_tape s back)
    × ((f : Field) (back : ℕ)
        → back + 1 < fresh_tape.size
        → tape_field pushed f (back + 1) ≡ tape_field fresh_tape f back)
    × ((f : Field) → tape_field pushed f 0 ≡ some (field_value f sample))
push_shifts_example = push_shifts sample_plan sample sample_units fresh_tape fresh_tape-IsRing
