-- ===== src/Paper/Execution/Sound.antt =====
-- lib/trading/paperExecution.ts: the balance of the ledger through the loops over paper orders.
use cm_desk.Prelude.{ℕ, suc, Bool, not, ◌&&◌, Option, List, [], ◌∷◌, inl, inr, Bool-cases}
use cm_desk.Prelude.Text.{Text, truthy}
use cm_desk.Prelude.Double.{Double}
use cm_desk.Money.{result-cases}
use cm_desk.Intake.{StoredOrder, Desk, get_open_orders}
use cm_desk.Intake.Intent.{JobRef}
use cm_desk.Intake.Snapshot.{KiteReport, ReportContext}
use cm_desk.Intake.Snapshot.Sound.{IsSound, snapshot-IsSound}
use cm_desk.Paper.Execution.{
  report_row, report_loop, cancel_paper_working_orders, match_paper_working_stops,
}

module _ (job_by_tag : Text → Option JobRef) (uuids : List Text) (now : ℕ) (works : Bool) where
  loop-IsSound :
      (chosen : StoredOrder → Bool) (report : StoredOrder → KiteReport)
      (context : StoredOrder → ReportContext) (rows : List StoredOrder) (count : ℕ) (s : Desk)
      → IsSound s.ledger
      → IsSound (report_loop job_by_tag uuids now works chosen report context rows count s).0.ledger
  unfolding report_loop
  loop-IsSound chosen report context [] count s sound = sound
  loop-IsSound chosen report context (row ∷ rows) count s sound =
      let r = report_row job_by_tag uuids now works (report row) (context row) s in
      let after = snapshot-IsSound (report row) (context row) now job_by_tag uuids works s sound in
      elim (Bool-cases (chosen row)) [
        | inr skipped ↦
            rw (skipped, report_loop) (loop-IsSound chosen report context rows count s sound)
        | inl hit ↦ elim (result-cases r.1) [
          | inl (e, failed) ↦ rw (hit, failed, report_loop) after
          | inr (result, done) ↦
              rw (hit, done, report_loop)
                (loop-IsSound chosen report context rows (suc count) r.0 after)
        ]
      ]

  pub cancel-IsSound :
      (tradingsymbol : Text) (side tag : Option Text) (s : Desk)
      → IsSound s.ledger
      → IsSound
          (cancel_paper_working_orders job_by_tag uuids now works tradingsymbol side tag s).0.ledger
  unfolding cancel_paper_working_orders
  cancel-IsSound tradingsymbol side tag s sound =
      elim (Bool-cases (not (truthy side) && not (truthy tag))) [
        | inl unnamed ↦ rw unnamed sound
        | inr named ↦ rw named (loop-IsSound _ _ _ (get_open_orders s) 0 s sound)
      ]

  pub match_stops-IsSound {ℓ} :
      {F : Type ℓ} ⦃d : Double F⦄ (number_of : Text → F) (text_of : F → Text) (tradingsymbol : Text)
      (last : F) (high low : Option F) (s : Desk)
      → IsSound s.ledger
      → IsSound
          (match_paper_working_stops job_by_tag uuids now number_of text_of works tradingsymbol last
            high low s).0.ledger
  unfolding match_paper_working_stops
  match_stops-IsSound number_of text_of tradingsymbol last high low s sound =
      loop-IsSound _ _ _ (get_open_orders s) 0 s sound
