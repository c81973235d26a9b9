-- ===== src/Actions/Once.antt =====
-- A send that no provider dedupes happens once, whatever crashes, redeploys and sweeps come between.
use mathlib.Core.Path.{subst₂}
use hyperfixation_core.Prelude.{
  eq_iff, String, ◌≤◌, ◌≡◌, refl, arith, Bool, true, false, ◌&&◌, ◌==◌, List, ◌∷◌, if◌then◌else◌,
  update_where, count_where, any_where-update, inl, inr, Bool-cases,
}
use hyperfixation_core.State.{Db, ActionLog, Result, ok, err}
use hyperfixation_core.Ledger.{Ctx}
use hyperfixation_core.Actions.{
  ActionsPerformOptions, ActionResult, ActionDispatch, Taken, send, is_action, take_action,
}
use hyperfixation_core.Actions.Perform.{dispatch_of, finish_action, ok_row, failed_row}
use hyperfixation_core.Actions.Entry.{
  take_action-Reads, take_row-send, reenter-send, has_action, take_action-has,
}

-- The database, and every dispatch that a channel was handed, oldest last.
pub record World : Type 0 where
  pub db : Db
  pub sent : List ActionDispatch

abbrev pub is_dispatch : String → String → ActionDispatch → Bool
is_dispatch run_id key d = (d.run_id == run_id) && (d.key == key)

-- What can happen to the actions of the program, where no channel that is handed the action
-- `key` of the run dedupes. A process may die after any of these steps, so a send need not be
-- followed by its `finishes`; and an attempt may be any attempt of any run.
pub data Happens (run_id key : String) : World → World → Type 0 where
  -- `perform` committed its first transaction, and the channel is handed the dispatch.
  sends :
      {w v : World} (ctx : Ctx) (options : ActionsPerformOptions) (db' : Db)
      → take_action ctx options w.db ≡ ok (send, db')
      → (((ctx.run_id == run_id) && (options.key == key)) ≡ true → options.channel.dedupes ≡ false)
      → v ≡ record { db = db'; sent = dispatch_of ctx options ∷ w.sent }
      → Happens run_id key w v
  -- `perform` committed its first transaction and does not send.
  returns :
      {w v : World} (ctx : Ctx) (options : ActionsPerformOptions) (t : Taken) (db' : Db)
      → take_action ctx options w.db ≡ ok (t, db')
      → v ≡ record { db = db'; sent = w.sent }
      → Happens run_id key w v
  -- The last transaction of `perform`.
  finishes :
      {w v : World} (ctx : Ctx) (own : String) (result : Result ActionResult) (db' : Db)
      → finish_action ctx own result w.db ≡ ok (tt, db')
      → v ≡ record { db = db'; sent = w.sent }
      → Happens run_id key w v
  -- Any update of hf_action_log rows that keeps their keys, as the reconciler's sweep makes.
  sweeps :
      {w v : World} (p : ActionLog → Bool) (f : ActionLog → ActionLog)
      → ((a : ActionLog) → ((f a).run_id ≡ a.run_id) × ((f a).key ≡ a.key))
      → v ≡ record {
        db = record w.db { action_logs = update_where p f w.db.action_logs };
        sent = w.sent;
      }
      → Happens run_id key w v
  -- Everything else leaves the table alone.
  elsewhere :
      {w v : World} → v.db.action_logs ≡ w.db.action_logs → v.sent ≡ w.sent → Happens run_id key w v

-- One dispatch at most, and none before the row.
abbrev pub IsSingle : String → String → World → Type 0
IsSingle run_id key w =
    count_where (is_dispatch run_id key) w.sent ≤ (if has_action run_id key w.db then 1 else 0)

-- A channel that does not dedupe is handed a dispatch only by the attempt that inserted the row.
pub send_fresh :
    (ctx : Ctx) (options : ActionsPerformOptions) (db db' : Db)
    → take_action ctx options db ≡ ok (send, db')
    → options.channel.dedupes ≡ false
    → has_action ctx.run_id options.key db ≡ false
send_fresh ctx options db db' h plain =
    let r = take_action-Reads ctx options db send db' h in
    elim (take_row-send r.row.status ctx options _ r.row _ db' r.taken) [
      | inl fresh ↦ ground (arith, fresh.0)
      | inr again ↦ absurd (ground (arith, plain, (reenter-send ctx options r.row _ db' again).0))
    ]

module _ (run_id key : String) where
  sends-IsSingle :
      (sent : List ActionDispatch) (ctx : Ctx) (options : ActionsPerformOptions) (db db' : Db)
      → take_action ctx options db ≡ ok (send, db')
      → (((ctx.run_id == run_id) && (options.key == key)) ≡ true → options.channel.dedupes ≡ false)
      → count_where (is_dispatch run_id key) sent ≤ (if has_action run_id key db then 1 else 0)
      → count_where (is_dispatch run_id key) (dispatch_of ctx options ∷ sent)
        ≤ (if has_action run_id key db' then 1 else 0)
  unfolding count_where dispatch_of
  sends-IsSingle sent ctx options db db' h plain single =
      elim (Bool-cases ((ctx.run_id == run_id) && (options.key == key))) [
        | inl same ↦ ground (
          arith,
          take_action-has run_id key ctx options db send db' h,
          own same (send_fresh ctx options db db' h (plain same)),
        )
        | inr other ↦ ground (arith, take_action-has run_id key ctx options db send db' h)
      ]
    where
      own :
          ((ctx.run_id == run_id) && (options.key == key)) ≡ true
          → has_action ctx.run_id options.key db ≡ false
          → has_action run_id key db ≡ false
      own same =
          subst₂ (λ r k. has_action r k db ≡ false) ((eq_iff ctx.run_id run_id).0 (ground arith))
            ((eq_iff options.key key).0 (ground arith))

  finish_action-has :
      (ctx : Ctx) (own : String) (result : Result ActionResult) (db db' : Db)
      → finish_action ctx own result db ≡ ok (tt, db')
      → has_action run_id key db' ≡ has_action run_id key db
  unfolding finish_action
  finish_action-has ctx own (ok r) db db' h = ground (
    arith,
    any_where-update (is_action run_id key) (is_action ctx.run_id own) (ok_row r db.now) (λ a. refl)
        db.action_logs,
  )
  finish_action-has ctx own (err e) db db' h = ground (
    arith,
    any_where-update (is_action run_id key) (is_action ctx.run_id own) (failed_row db.now)
        (λ a. refl) db.action_logs,
  )

  Happens-IsSingle :
      {w v : World} → Happens run_id key w v → IsSingle run_id key w → IsSingle run_id key v
  Happens-IsSingle {w} (sends ctx options db' h plain e) single =
      rw e (sends-IsSingle w.sent ctx options w.db db' h plain single)
  Happens-IsSingle {w} (returns ctx options t db' h e) single =
      rw e (ground (arith, single, take_action-has run_id key ctx options w.db t db' h))
  Happens-IsSingle {w} (finishes ctx own result db' h e) single =
      rw e (ground (arith, single, finish_action-has ctx own result w.db db' h))
  Happens-IsSingle {w} (sweeps p f keeps e) single = rw e (
      ground (
        arith,
        single,
        any_where-update (is_action run_id key) p f (λ a. cc ((keeps a).0, (keeps a).1))
            w.db.action_logs,
      ))
  Happens-IsSingle {w} {v} (elsewhere logs sent) single = rw (logs, sent) single

  pub data History (w : World) : World → Type 0 where
    here : History w w
    next : {v u : World} → History w v → Happens run_id key v u → History w u

  History-IsSingle : {w v : World} → History w v → IsSingle run_id key w → IsSingle run_id key v
  History-IsSingle here s = s
  History-IsSingle (next r st) s = Happens-IsSingle st (History-IsSingle r s)

-- At most once: from a world in which the action was neither ledgered nor sent, no history of
-- attempts, crashes, redeploys and sweeps hands a channel that does not dedupe two dispatches of it.
pub at_most_one_send :
    (run_id key : String) (w v : World)
    → count_where (is_dispatch run_id key) w.sent ≡ 0
    → History run_id key w v
    → count_where (is_dispatch run_id key) v.sent ≤ 1
at_most_one_send run_id key w v none_sent h =
    ground (arith, History-IsSingle run_id key h (ground (arith, none_sent)))
