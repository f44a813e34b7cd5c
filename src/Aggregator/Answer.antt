-- ===== src/Aggregator/Answer.antt =====
-- What the call that writes to the aggregator answers.
use zerosum.Aggregator.{
  Sent, thrown, answered, Timeval, eagain, ipc_location, message, write_to_local_aggregator,
}
use zerosum.Base.{
  ℕ, ◌≤◌, ◌<◌, ◌^◌, ◌≡◌, refl, ◌⊎◌, inl, inr, arith, ◌++◌, ◌==◌, false, Option, none, some, length,
  length-append,
}
use zerosum.Floats.{Floats}
use zerosum.Text.{Text, codes}
use zerosum.Utils.Env.{Environment, parse_string}

-- A time as `gettimeofday` gives it: both members are of type `long`, and the second is below a million.
pub record IsTime (stamp : Timeval) : Type 0 where
  pub seconds_fit : stamp.seconds < 2 ^ 63
  pub microseconds_fit : stamp.microseconds < 1000000

-- What is documented of `double`s and of ZeroMQ: the sum for a time is finite, so that `%f` writes at
-- least one digit, a point and six digits, and a message that is sent is sent whole.
pub record Laws (fl : Floats) (send : Text → Text → Sent) : Type 0 where
  pub prints :
      (stamp : Timeval)
      → IsTime stamp
      → 8
        ≤ length (
            fl.print (
              fl.add
                (fl.of_ℕ stamp.seconds)
                (fl.divide (fl.of_ℕ stamp.microseconds) (fl.of_ℕ 1000000))))
  pub sends_all : (at_ text : Text) (n : ℕ) → send at_ text ≡ answered (some n) → n ≡ length text

Sent-cases : (s : Sent) → (s ≡ thrown) ⊎ ((s ≡ answered none) ⊎ ((n : ℕ) × (s ≡ answered (some n))))
Sent-cases thrown = inl refl
Sent-cases (answered none) = inr (inl refl)
Sent-cases (answered (some n)) = inr (inr (n, refl))

message_long :
    (fl : Floats) (stamp : Timeval) (getenv : Environment) (send : Text → Text → Sent)
    (content : Text)
    → Laws fl send
    → IsTime stamp
    → 12 ≤ length (message fl getenv send stamp content)
message_long fl stamp getenv send content laws time =
    let x =
      fl.add (fl.of_ℕ stamp.seconds) (fl.divide (fl.of_ℕ stamp.microseconds) (fl.of_ℕ 1000000)) in
    omega (
      arith,
      laws.prints stamp time,
      length-append (fl.print x ++ codes ",") content,
      length-append (fl.print x) (codes ","),
      length-append (fl.print x) (codes "," ++ content),
    )

-- For data of any length, at a time as `gettimeofday` gives it, the answer is 0 exactly where nothing is thrown: a message that would block is
-- answered like one that is sent, and the answer 1 behind the test for it is never given.
pub write_to_local_aggregator_lem :
    (fl : Floats) (getenv : Environment) (send : Text → Text → Sent) (stamp : Timeval)
    (content : Text)
    → Laws fl send
    → IsTime stamp
    → let at_ = parse_string getenv (codes "ZS_AGGREGATION_BINDPOINT") ipc_location in
      let sent = send at_ (message fl getenv send stamp content) in
      ((sent ≡ thrown) × (write_to_local_aggregator fl getenv send stamp content ≡ 1))
      ⊎ ((o : Option ℕ) × (sent ≡ answered o)
          × (write_to_local_aggregator fl getenv send stamp content ≡ 0))
unfolding write_to_local_aggregator
write_to_local_aggregator_lem fl getenv send stamp content laws time =
    let at_ = parse_string getenv (codes "ZS_AGGREGATION_BINDPOINT") ipc_location in
    let text = message fl getenv send stamp content in
    let long = message_long fl stamp getenv send content laws time in
    elim (Sent-cases (send at_ text)) [
      | inl e ↦ inl (e, rw (e, write_to_local_aggregator) refl)
      | inr (inl e) ↦ inr (none, e, rw (e, write_to_local_aggregator) refl)
      | inr (inr (n, e)) ↦
          let differs : (n == eagain) ≡ false = ground (arith, laws.sends_all at_ text n e, long) in
          inr (some n, e, rw (e, write_to_local_aggregator) (rw differs refl))
    ]
