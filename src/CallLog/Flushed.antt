-- ===== src/CallLog/Flushed.antt =====
-- The chain through the summaries and the gap entry that are written before a call.
use persistence_memory.Prelude.{
  ◌≡◌, true, Option, none, some, List, [], ◌∷◌, Text, text_eq, pair_eq, lookup,
}
use persistence_memory.Hash.{Sha256}
use persistence_memory.CallLog.State.{
  Window, Fields, Head, Outage, World, Env, ◌>>=◌, modify, return,
}
use persistence_memory.CallLog.Files.{head_of}
use persistence_memory.CallLog.Append.{
  Json, clear_degraded, append_locked, flush_denied, flush_suppressed, flush_read, flush_keys,
  flush_reads, record_gap, close_denied, close_reads, clear,
}
use persistence_memory.CallLog.Steps.{>>=-Ends}
use persistence_memory.CallLog.Chained.{Kept, AtTip, Leads, append_locked-AtTip}

module _ (h : Sha256) (json : Json) (env : Env) (removes : env.removable ≡ true) where
  -- Appending, and then a change of what is in memory alone.
  append_then :
      (f : Fields) (head : Head) (change : World → World) (w : World)
      → ((now : World) (p : Head)
          → AtTip h json env removes p now
          → AtTip h json env removes p (change now))
      → AtTip h json env removes head w
      → Leads h json env removes
          ((append_locked h json env f head >>= λ e. modify change >>= λ _. return (head_of e)) w)
  append_then f head change w keeps at =
      >>=-Ends (λ e. AtTip h json env removes (head_of e)) (AtTip h json env removes)
        (Kept h json env removes) (append_locked h json env f head)
        (λ e. modify change >>= λ _. return (head_of e)) w
        (append_locked-AtTip h json env removes f head w at)
        (λ e now there. keeps now (head_of e) there)

  pub flush_suppressed-Leads :
      (head : Head) (w : World)
      → AtTip h json env removes head w
      → Leads h json env removes (flush_suppressed h json env head w)
  unfolding flush_suppressed flush_denied
  flush_suppressed-Leads head w at = by w.suppressed
    where
      by : (o : Option Window) → Leads h json env removes (flush_denied h json env o head w)
      by none = at
      by (some s) = append_then _ head (close_denied h json env) w (λ now p there. there) at

  pub record_gap-Leads :
      (o : Option Outage) (head : Head) (w : World)
      → AtTip h json env removes head w
      → Leads h json env removes (record_gap h json env o head w)
  unfolding record_gap clear_degraded
  record_gap-Leads none head w at = at
  record_gap-Leads (some s) head w at =
      append_then _ head (clear h json env) w (λ now p there. there) at

  flush_read-Leads :
      (key : Text × Text) (o : Option Window) (head : Head) (w : World)
      → AtTip h json env removes head w
      → Leads h json env removes (flush_read h json env key o head w)
  unfolding flush_read
  flush_read-Leads key none head w at = at
  flush_read-Leads (tenant, transport) (some s) head w at =
      append_then _ head (close_reads h json env (tenant, transport)) w (λ now p there. there) at

  pub flush_keys-Leads :
      (keys : List (Text × Text)) (head : Head) (w : World)
      → AtTip h json env removes head w
      → Leads h json env removes (flush_keys h json env keys head w)
  unfolding flush_keys
  flush_keys-Leads [] head w at = at
  flush_keys-Leads (key ∷ keys) head w at =
      >>=-Ends (AtTip h json env removes) (AtTip h json env removes) (Kept h json env removes)
        (flush_read h json env key (lookup key w.read_suppressed) head) (flush_keys h json env keys)
        w (flush_read-Leads key (lookup key w.read_suppressed) head w at) (flush_keys-Leads keys)

  pub flush_reads-Leads :
      (head : Head) (w : World)
      → AtTip h json env removes head w
      → Leads h json env removes (flush_reads h json env head w)
  unfolding flush_reads
  flush_reads-Leads head w at = flush_keys-Leads _ head w at
