-- ===== src/Storage/Batches.antt =====
-- What `ReadMessages` of internal/storage/kafka.go gives.
use Prim.Native.String.{◌++◌ as concat}
use llmapi_gate_way.Common.Result.{Result, done, failed}
use llmapi_gate_way.Storage.{
  KafkaError, canceled, deadline_exceeded, broker_error, Batch, messages, read_error, read_more,
  after_read, read_loop, read_messages,
}
use llmapi_gate_way.Common.{
  ℕ, zero, suc, ◌<◌, String, ◌≡◌, refl, ap, Bool, true, false, List, [], ◌∷◌, arith, length,
}
use llmapi_gate_way.Common.Int.{pos}

abbrev pub is_end : KafkaError → Bool
is_end canceled = true
is_end deadline_exceeded = true
is_end (broker_error e) = false

module _ {S M : Type 0} (read_message : S → S × Result KafkaError M) where
  -- The reader gives these messages one after the other.
  pub data Reads : S → List M → S → Type 0 where
    nothing : {s : S} → Reads s [] s
    next :
        {s t u : S} {m : M} {ms : List M}
        → read_message s ≡ (t, done m)
        → Reads t ms u
        → Reads s (m ∷ ms) u

  -- A call for so many messages gives that many, or fewer because the context ended, or none of those
  -- that were read because of another error.
  pub data Fetched : ℕ → S → S × Batch M → Type 0 where
    full :
        {n : ℕ} {s u : S} {ms : List M}
        → Reads s ms u
        → length ms ≡ n
        → Fetched n s (u, messages ms)
    ended :
        {n : ℕ} {s u v : S} {ms : List M} {e : KafkaError}
        → Reads s ms u
        → length ms < n
        → read_message u ≡ (v, failed e)
        → is_end e ≡ true
        → Fetched n s (v, messages ms)
    lost :
        {n : ℕ} {s u v : S} {ms : List M} {e : String}
        → Reads s ms u
        → length ms < n
        → read_message u ≡ (v, failed (broker_error e))
        → Fetched n s (v, read_error (concat "failed to read message: " e))

  read_more-Fetched :
      {n : ℕ} {s t : S} {m : M} {r : S × Batch M}
      → read_message s ≡ (t, done m)
      → Fetched n t r
      → Fetched (suc n) s (read_more read_message m r)
  read_more-Fetched read (Fetched.full reads q) = Fetched.full (Reads.next read reads) (ap suc q)
  read_more-Fetched read (Fetched.ended reads few stop q) =
      Fetched.ended (Reads.next read reads) (omega arith) stop q
  read_more-Fetched read (Fetched.lost reads few stop) =
      Fetched.lost (Reads.next read reads) (omega arith) stop

  after_read-Fetched :
      (n : ℕ) (s : S) (r : S × Result KafkaError M)
      → read_message s ≡ r
      → ((t : S) → Fetched n t (read_loop read_message n t))
      → Fetched (suc n) s (after_read read_message (read_loop read_message n) r)
  after_read-Fetched n s (t, done m) read rest = read_more-Fetched read (rest t)
  after_read-Fetched n s (t, failed canceled) read rest =
      Fetched.ended Reads.nothing (omega arith) read refl
  after_read-Fetched n s (t, failed deadline_exceeded) read rest =
      Fetched.ended Reads.nothing (omega arith) read refl
  after_read-Fetched n s (t, failed (broker_error e)) read rest =
      Fetched.lost Reads.nothing (omega arith) read

  read_loop-Fetched : (n : ℕ) (s : S) → Fetched n s (read_loop read_message n s)
  unfolding read_loop
  read_loop-Fetched zero s = Fetched.full Reads.nothing refl
  read_loop-Fetched (suc n) s =
      after_read-Fetched n s (read_message s) refl (λ t. read_loop-Fetched n t)

  -- `ReadMessages` gives the next messages of the reader in their order, as many as asked for unless the
  -- context ends before. After any other error it gives none, also of those that it had read.
  pub read_messages-Fetched :
      (max : ℕ) (s : S) → Fetched max s (read_messages read_message (pos max) s)
  unfolding read_messages
  read_messages-Fetched max s = read_loop-Fetched max s
