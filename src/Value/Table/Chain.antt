-- ===== src/Value/Table/Chain.antt =====
-- src/table.rs: `clear_chain`, which frees the slots of a value, and the plans that lead to it. The
-- chain is followed for `fuel` slots at most.
use blockchain_parity_db.Prelude.{
  ℕ, zero, suc, Bool, true, false, Option, none, some, if◌then◌else◌,
}
use blockchain_parity_db.Bytes.{Memory}
use blockchain_parity_db.Outcome.{Result, ok, stuck, ◌>>=◌}
use blockchain_parity_db.Log.Overlay.{LogWriter}
use blockchain_parity_db.Value.Table.{ValueTable, read_next_part, clear_slot}
use blockchain_parity_db.Value.Table.Counter.{more, less, change_ref}

-- The next slot, if there is one
unfoldable pub clear_rest :
    Option ℕ
    → (ℕ → ValueTable → LogWriter → Result (ValueTable × LogWriter))
    → ValueTable
    → LogWriter
    → Result (ValueTable × LogWriter)
clear_rest none loop t w = ok (t, w)
clear_rest (some next) loop t w = loop next t w

module _ (uninit : Memory) where
  unfoldable pub clear_chain : ℕ → ℕ → ValueTable → LogWriter → Result (ValueTable × LogWriter)
  clear_chain zero index t w = stuck
  clear_chain (suc fuel) index t w = do
    part ← read_next_part uninit t index w
    (t', w') ← clear_slot uninit t index w
    clear_rest part (clear_chain fuel) t' w'

  unfoldable pub write_remove_plan :
      ℕ → ℕ → ValueTable → LogWriter → Result (ValueTable × LogWriter)
  write_remove_plan fuel index t w =
      let chain = clear_chain fuel index t w in
      if t.multipart then chain else clear_slot uninit t index w

  unfoldable pub write_inc_ref : ℕ → ValueTable → LogWriter → Result LogWriter
  write_inc_ref index t w = do (there, w') ← change_ref uninit t index (more 1) w; ok w'

  -- `true` if the value stays
  unfoldable pub write_dec_ref :
      ℕ → ℕ → ValueTable → LogWriter → Result (Bool × ValueTable × LogWriter)
  write_dec_ref fuel index t w = do
    (there, w') ← change_ref uninit t index (less 1) w
    if there
        then ok (true, t, w')
        else (do (t', w'') ← write_remove_plan fuel index t w'; ok (false, t', w''))
