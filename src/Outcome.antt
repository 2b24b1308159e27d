-- ===== src/Outcome.antt =====
-- What a Go call of the parser returns: a value, an error, or a run-time panic.
use p2pool_salvium_observer.Prelude.{ℕ, ◌≡◌, Bool, true, false}

-- What was being read when an error was wrapped by `fmt.Errorf("reading …: %w", err)`.
pub data Site : Type 0 where
  mainchain_data sidechain_data : Site
  timestamp prev_id nonce tx_version unlock_height input_count txin_type txin_gen_height : Site
  num_outputs : Site
  output_reward output_type output_key output_asset_len output_asset : ℕ → Site
  output_view_tag output_anchor : ℕ → Site
  compact_total_reward compact_outputs_blob_size compact_sidechain_id : Site
  tx_extra_size tx_extra tx_type amount_burnt rct_type num_transactions transactions : Site
  spend_public_key view_public_key txkey_sec_seed parent uncle_count : Site
  uncle : ℕ → Site
  sidechain_height difficulty_lo difficulty_hi cumulative_lo cumulative_hi merkle_count : Site
  merkle_proof : ℕ → Site
  mm_extra_count : Site
  mm_extra_chain_id mm_extra_data_len : ℕ → Site

-- The errors that the code creates, without the numbers that their messages print.
-- `out_of_fuel` is no Go error: the model's loop over the bytes of a varint ran out of rounds.
pub data Error : Type 0 where
  varint_beyond varint_end varint_overflow out_of_fuel : Error
  hash_short uint32_short uint64_short byte_short skip_short : Error
  entry_short entry_truncated bad_major_version bad_offset : Error
  mainchain_short bad_tx_version bad_input_count bad_txin_type : Error
  sidechain_short too_many_uncles mm_extra_exceeds extra_buf_exceeds : Error
  reading : Site → Error → Error

pub data Result {ℓ} (A : Type ℓ) : Type ℓ where
  ok : A → Result A
  err : Error → Result A
  panic : Result A

infixl 5 ◌>>=◌ ◌>>◌
abbrev pub ◌>>=◌ {ℓ κ} : {A : Type ℓ} {B : Type κ} → Result A → (A → Result B) → Result B
panic >>= f = panic
err e >>= f = err e
ok a >>= f = f a

abbrev pub ◌>>◌ {ℓ} : {B : Type ℓ} → Result (Unit {0}) → Result B → Result B
m >> k = m >>= λ _. k

-- `if failed { return err }`
abbrev pub fail_if : Bool → Error → Result (Unit {0})
fail_if true e = err e
fail_if false e = ok tt

module _ {ℓ} {A : Type ℓ} where
  -- `if err != nil { return fmt.Errorf("reading …: %w", err) }`
  abbrev pub context : Site → Result A → Result A
  context s (ok a) = ok a
  context s (err e) = err (reading s e)
  context s panic = panic

-- A test that passes.
pub then_pass {ℓ} :
    {B : Type ℓ} (b : Bool) (e : Error) (f : Unit {0} → Result B) {r : Result B}
    → b ≡ false
    → f tt ≡ r
    → (fail_if b e >>= f) ≡ r
then_pass b e f h k = rw h k

module _ {ℓ κ} {A : Type ℓ} {B : Type κ} where
  -- The rules by which a run of a `do` block is put together.
  pub bind_ok :
      (m : Result A) {a : A} (f : A → Result B) {r : Result B} → m ≡ ok a → f a ≡ r → (m >>= f) ≡ r
  bind_ok m f e h = rw e h
