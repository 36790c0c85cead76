-- ===== src/Tenancy/Estimate.antt =====
-- estimate.py: bounds of the estimate, and a request that makes it negative.
use switchyard_llm.Prelude.{
  ℕ, ◌+◌, ◌*◌, ◌≡◌, ◌≤◌, refl, String, List, [], ◌∷◌, ◌++◌, Option, none, some, arith, length,
}
use switchyard_llm.Prelude.Int.{ℤ, pos, negsuc, ◌≤ℤ◌, ◌<ℤ◌, int_laws, +ℤ_parts}
use switchyard_llm.Schemas.{Json, Message, ChatCompletionRequest}
use switchyard_llm.Tenancy.{input_tokens, output_estimate, estimate_tokens}

module _ (encoder : Option (String → ℕ)) (str : Json → String) where
  input_tokens-append :
      (ms ns : List Message)
      → input_tokens encoder str (ms ++ ns)
        ≡ input_tokens encoder str ms + input_tokens encoder str ns
  unfolding input_tokens
  input_tokens-append [] ns = omega arith
  input_tokens-append (m ∷ ms) ns = omega (arith, input_tokens-append ms ns)

  input_tokens_low : (ms : List Message) → 3 * length ms ≤ input_tokens encoder str ms
  unfolding input_tokens
  input_tokens_low [] = omega arith
  input_tokens_low (m ∷ ms) = omega (arith, input_tokens_low ms)

  output_low :
      (n : Option ℤ) → ((m : ℤ) → n ≡ some m → pos 0 ≤ℤ m) → pos 1 ≤ℤ output_estimate encoder str n
  unfolding output_estimate
  output_low none h = omega arith
  output_low (some (pos n)) h = ground arith
  output_low (some (negsuc n)) h = absurd (omega (arith, h (negsuc n) refl))

  -- Unless the client sends a negative `max_tokens`, the estimate is more than three tokens for each
  -- message.
  pub estimate_low :
      (request : ChatCompletionRequest)
      → ((m : ℤ) → request.max_tokens ≡ some m → pos 0 ≤ℤ m)
      → pos (3 * length request.messages + 1) ≤ℤ estimate_tokens encoder str request
  unfolding estimate_tokens
  estimate_low request h = omega (
    arith,
    input_tokens_low request.messages,
    output_low request.max_tokens h,
    +ℤ_parts (pos (input_tokens encoder str request.messages))
        (output_estimate encoder str request.max_tokens),
  )

  -- A negative `max_tokens` is taken as it is: if it outweighs the input, the estimate is negative.
  pub estimate_negative :
      (request : ChatCompletionRequest) (n : ℕ)
      → request.max_tokens ≡ some (negsuc n)
      → input_tokens encoder str request.messages ≤ n
      → estimate_tokens encoder str request <ℤ pos 0
  unfolding estimate_tokens
  estimate_negative request n e h = rw e (omega (int_laws, h))
