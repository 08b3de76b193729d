-- ===== src/Logger.antt =====
-- cpp/common/logger/logger.h and logger.cpp, and the factory of cpp/sim_engine/common_log: log records, the
-- recorders that queue them, and the thread that writes them to the file.
pub mod Written
use nrtb_redo.Common.{ℕ, ◌+◌, Bool, true, false, List, [], ◌∷◌, ◌++◌, if◌then◌else◌, ◌==◌}
use nrtb_redo.Common.Bytes.{Bytes, codes}
use nrtb_redo.Common.Decimal.{show_nat}
use nrtb_redo.Queue.{Queue, Attempt}
use nrtb_redo.Queue

pub data LogSev : Type 0 where
  critical severe warning info trace : LogSev

unfoldable pub sev2text : LogSev → Bytes
sev2text critical = codes "CRITICAL"
sev2text severe = codes "SEVERE"
sev2text warning = codes "WARNING"
sev2text info = codes "INFO"
sev2text trace = codes "TRACE"

pub record LogRecord : Type 0 where
  pub created : ℕ
  pub severity : LogSev
  pub component : Bytes
  pub message : Bytes

-- `now` is what `std::time` gives.
unfoldable pub log_record : ℕ → LogSev → Bytes → Bytes → LogRecord
log_record now s c m = record { created = now; severity = s; component = c; message = m }

pub record LogRecorder : Type 0 where
  pub component : Bytes

-- `log_factory::operator()`; its queue is the argument of the recorder's calls.
unfoldable pub recorder : Bytes → LogRecorder
recorder s = record { component = s }

-- `log_recorder::operator()`; `critical` to `trace` call it with their severity.
unfoldable pub log : ℕ → LogSev → Bytes → LogRecorder → Queue LogRecord → Attempt (Queue LogRecord)
unfolding log_record
log now sev msg r q = Queue.push (log_record now sev r.component msg) q

-- The members of `std::tm` that the writer reads.
pub record LocalTime : Type 0 where
  pub tm_year : ℕ
  pub tm_mon : ℕ
  pub tm_mday : ℕ
  pub tm_hour : ℕ
  pub tm_min : ℕ
  pub tm_sec : ℕ

-- The queue and what the threads around it keep: the lines of the file, and whether the writer has ended.
pub record Log : Type 0 where
  pub queue : Queue LogRecord
  pub file : List Bytes
  pub done : Bool

-- What happens next: a recorder is called, the writer goes through its loop once, or `close` shuts the
-- queue down behind its loop.
pub data Event : Type 0 where
  logs : ℕ → LogSev → Bytes → LogRecorder → Event
  writes shuts : Event

module _ (localtime : ℕ → LocalTime) where
  unfoldable pub line : LogRecord → Bytes
  unfolding sev2text
  line r =
      let tm = localtime r.created in
      show_nat (tm.tm_year + 1900)
      ++ (codes "-"
          ++ (show_nat (tm.tm_mon + 1)
              ++ (codes "-"
                  ++ (show_nat tm.tm_mday
                      ++ (codes ":"
                          ++ (show_nat tm.tm_hour
                              ++ (codes ":"
                                  ++ (show_nat tm.tm_min
                                      ++ (codes ":"
                                          ++ (show_nat tm.tm_sec
                                              ++ (codes "\t"
                                                  ++ (sev2text r.severity
                                                      ++ (codes "\t"
                                                          ++ (r.component
                                                            ++ (codes "\t"
                                                            ++ r.message)))))))))))))))

  -- A recorder whose queue is shut throws in its own thread, and the log stays as it is.
  abbrev pub pushed : Log → Attempt (Queue LogRecord) → Log
  pushed s (Queue.returns q) = record s { queue = q }
  pushed s Queue.waits = s
  pushed s Queue.queue_not_ready = s
  pushed s Queue.undefined = s

  abbrev pub popped : Log → Attempt (LogRecord × Queue LogRecord) → Log
  popped s (Queue.returns (r, q)) = record s { queue = q; file = s.file ++ (line r ∷ []) }
  popped s Queue.waits = s
  popped s Queue.queue_not_ready = record s { done = true }
  popped s Queue.undefined = record s { done = true }

  -- One round of `writer_thread`.
  unfoldable pub write_round : Log → Log
  write_round s = if s.done then s else popped s (Queue.pop s.queue)

  unfoldable pub step : Event → Log → Log
  unfolding write_round log
  step (logs now sev msg r) s = pushed s (log now sev msg r s.queue)
  step writes s = write_round s
  step shuts s = record s { queue = Queue.shutdown s.queue }

  unfoldable pub run : List Event → Log → Log
  unfolding step
  run [] s = s
  run (e ∷ es) s = run es (step e s)

-- `while (myqueue.size())` of `close` goes on.
unfoldable pub must_drain : Log → Bool
unfolding Queue.size
must_drain s = if Queue.size s.queue == 0 then false else true
