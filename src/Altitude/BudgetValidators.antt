-- ===== src/Altitude/BudgetValidators.antt =====
-- src/altitude/gate.ts: the validators V17, of the budget of tokens, and V18, of the altitude.
use kerf_app.Common.{
  Bool, Option, false, if◌then◌else◌, ltb, max, none, or_else, some, true, ℕ, ◌&&◌, ◌+◌,
}
use kerf_app.Common.Int.{ℤ}
use kerf_app.Common.Text.{decimal, ◌+++◌}
use kerf_app.Altitude.Types.{AltitudeLevel, AltitudePacket, ValidatorResult, l0, l1, v17, v18}
use kerf_app.Altitude.Levels.{AltitudeAssignmentResult, assign_altitude}
use kerf_app.Altitude.Validators.{fail_result, pass_result, validator_result}

pub record TokenBudgetOptions : Type 0 where
  pub per_action_token_cap : Option ℕ
  pub low_altitude_compact_prompt_threshold : Option ℕ

abbrev pub total_for_gate : AltitudePacket → ℕ
total_for_gate p =
    max
      (or_else p.token_usage.estimated_input_tokens 0
        + or_else p.token_usage.estimated_output_tokens 0)
      (p.token_usage.input_tokens + p.token_usage.output_tokens)

-- `limit !== undefined && n > limit`
abbrev pub exceeds : ℕ → Option ℕ → Bool
exceeds n none = false
exceeds n (some limit) = ltb limit n

abbrev pub is_low_altitude : AltitudeLevel → Bool
is_low_altitude l0 = true
is_low_altitude l1 = true
is_low_altitude _ = false

unfoldable pub run_v17_token_budget_check :
    AltitudePacket → TokenBudgetOptions → ℤ → ValidatorResult
run_v17_token_budget_check p options elapsed =
    if exceeds (total_for_gate p) options.per_action_token_cap
    then fail_result v17
        ("token_budget_exceeded: "
          +++ decimal (total_for_gate p)
          +++ " > "
          +++ decimal (or_else options.per_action_token_cap 0))
        elapsed
    else if is_low_altitude p.model_suggested_altitude
        && exceeds (or_else p.token_usage.estimated_input_tokens p.token_usage.input_tokens)
            options.low_altitude_compact_prompt_threshold
    then validator_result v17 false false (some "compact_prompt_required_at_low_altitude") none
        elapsed
    else pass_result v17 elapsed

unfoldable pub run_v18_altitude_assignment :
    AltitudePacket → ℤ → ValidatorResult × AltitudeAssignmentResult
run_v18_altitude_assignment p elapsed = (pass_result v18 elapsed, assign_altitude p)
