-- ===== src/Network/PeerLoop/Accounts.antt =====
-- The messages of a stream of crates/network/src/peer_loop.rs, counted from its bytes to the daemon.
use my_deskflow.Prelude.{
  ℕ, suc, ◌+◌, ◌<◌, ◌≤◌, ◌≡◌, refl, ap, true, false, Bool-cases, ==_iff, arith, ltb→lt, ◌==◌,
  Option, none, some, List, [], ◌∷◌, ◌++◌, length, ltb, inl, inr,
}
use mathlib.Core.List.{append_assoc, append-nil}
use my_deskflow.Prelude.Tagged.{from, from-append}
use my_deskflow.Core.Error.{ok}
use my_deskflow.Protocol.Message.{Message}
use my_deskflow.Protocol.Codec.{Bincode}
use my_deskflow.Protocol.Stream.{read_message, read_loop}
use my_deskflow.Protocol.Stream.Fuel.{read_loop-fuel, read_message_consumes}
use my_deskflow.Network.PeerLoop.{PeerLoop, Reader, opened, unopened, update_reader}

-- The messages of a stream up to its first error.
abbrev pub messages : Bincode → List ℕ → List Message
messages b bytes = read_loop b (suc (length bytes)) bytes

messages_nil : (b : Bincode) → messages b [] ≡ []
unfolding read_loop read_message
messages_nil b = refl

append-eq_nil : (ms : List Message) → ms ++ [] ≡ [] → ms ≡ []
append-eq_nil [] e = refl
append-eq_nil (m ∷ ms) e = absurd (ground arith)

abbrev pub held_list : Option Message → List Message
held_list none = []
held_list (some m) = m ∷ []

-- The messages that the daemon has taken and those that wait for it.
abbrev pub delivered : PeerLoop → List (ℕ × Message)
delivered s = s.taken ++ s.inbound

pub messages-ok :
    (b : Bincode) (bytes : List ℕ) (m : Message) (rest : List ℕ)
    → (read_message b bytes).outcome ≡ ok (m, rest)
    → messages b bytes ≡ m ∷ messages b rest
unfolding read_loop
messages-ok b bytes m rest e =
    let less = read_message_consumes b bytes m rest e in
    rw (e, read_loop)
      (ap (λ l. m ∷ l)
        (read_loop-fuel b (length bytes) (suc (length rest)) rest (omega arith) (omega arith)))

-- What there is still to come of a reader.
abbrev pub pending : Bincode → Reader → List Message
pending b r = held_list r.held ++ messages b r.stream

-- The invariant, by the parts of the state that it is about.
pub record IsFaithful (b : Bincode) (items : List (ℕ × Message)) (readers : ℕ → Reader) (n : ℕ)
    : Type 0 where
  pub accounts : (i : ℕ) → from i items ++ pending b (readers i) ≡ messages b (readers i).whole
  pub fresh : (i : ℕ) → n ≤ i → readers i ≡ unopened

module _ (b : Bincode) (items : List (ℕ × Message)) (readers : ℕ → Reader) (n : ℕ)
    (f : IsFaithful b items readers n) where
  -- A running reader is an opened one.
  pub running-lt : (i : ℕ) → (readers i).running ≡ true → i < n
  running-lt i h = elim (Bool-cases (ltb i n)) [
    | inl p ↦ ltb→lt i n p
    | inr p ↦ absurd (let e = f.fresh i (ground arith) in let bad = rw e at h in cc)
  ]

  -- A turn of the reader `i`: what it takes from its stream, it holds or delivers.
  pub replace :
      (i : ℕ) (r : Reader) (more : List (ℕ × Message))
      → i < n
      → r.whole ≡ (readers i).whole
      → ((j : ℕ) → (j == i) ≡ false → from j more ≡ [])
      → from i more ++ pending b r ≡ pending b (readers i)
      → IsFaithful b (items ++ more) (update_reader i r readers) n
  replace i r more lt same others kept = record { accounts = counted; fresh = rest }
    where
      at_i : from i (items ++ more) ++ pending b r ≡ messages b r.whole
      at_i = rw (from-append i items more) (
          rw (append_assoc (from i items) (from i more) (pending b r))
            (rw kept (rw same (f.accounts i))))

      counted :
          (j : ℕ)
          → from j (items ++ more) ++ pending b (update_reader i r readers j)
            ≡ messages b (update_reader i r readers j).whole
      counted j = elim (Bool-cases (j == i)) [
        | inl e ↦ let here : j ≡ i = (==_iff j i).0 e in rw e (rw here at_i)
        | inr e ↦ rw e (
            rw (from-append j items more)
              (rw (others j e) (rw (append-nil (from j items)) (f.accounts j))))
      ]

      rest : (j : ℕ) → n ≤ j → update_reader i r readers j ≡ unopened
      rest j le = elim (Bool-cases (j == i)) [
        | inl e ↦ absurd (let here = (==_iff j i).0 e in omega arith)
        | inr e ↦ rw e (f.fresh j le)
      ]

-- One more stream.
pub open_stream :
    (b : Bincode) (items : List (ℕ × Message)) (readers : ℕ → Reader) (n : ℕ) (bytes : List ℕ)
    → IsFaithful b items readers n
    → IsFaithful b items (update_reader n (opened bytes) readers) (n + 1)
open_stream b items readers n bytes f = record { accounts = counted; fresh = rest }
  where
    none_yet : from n items ≡ []
    none_yet =
        let e = f.fresh n (omega arith) in
        let all = rw (e, messages_nil b) at (f.accounts n) in append-eq_nil (from n items) all

    counted :
        (j : ℕ)
        → from j items ++ pending b (update_reader n (opened bytes) readers j)
          ≡ messages b (update_reader n (opened bytes) readers j).whole
    counted j = elim (Bool-cases (j == n)) [
      | inl e ↦ let here : j ≡ n = (==_iff j n).0 e in rw e (rw here (rw none_yet refl))
      | inr e ↦ rw e (f.accounts j)
    ]

    rest : (j : ℕ) → n + 1 ≤ j → update_reader n (opened bytes) readers j ≡ unopened
    rest j le = elim (Bool-cases (j == n)) [
      | inl e ↦ absurd (let here = (==_iff j n).0 e in omega arith)
      | inr e ↦ rw e (f.fresh j (omega arith))
    ]
