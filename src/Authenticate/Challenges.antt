-- ===== src/Authenticate/Challenges.antt =====
-- What AUTHENTICATE sends, and when.
use bkmail.Prelude.{
  ℕ, zero, suc, ◌+◌, ◌≤◌, ◌<◌, ◌≡◌, refl, Bool, true, false, List, [], ◌∷◌, ◌++◌, leb, ◌==◌,
  if◌then◌else◌, inl, inr, Bool-cases, Bytes, length, take, is_empty, arith,
}
use bkmail.Command.Segmented.{segment_at}
use bkmail.Authenticate.{
  AuthenticateCommand, new_authenticate, cancel_line, initial_line, ir_text, payload_line, render,
  next_segment, on_segment_flushed, on_continuation,
}

-- The write pump asks for a segment, or the server sends a challenge.
pub data Event : Type 0 where
  pumped challenged : Event

pub record Exchange : Type 0 where
  pub command : AuthenticateCommand
  pub sent : List Bytes

abbrev pub pump : Bytes → Exchange → Exchange
pump segment x =
    if is_empty segment
    then x
    else record { command = on_segment_flushed x.command; sent = x.sent ++ segment ∷ [] }

abbrev pub step : Event → Exchange → Exchange
step pumped x = pump (next_segment x.command) x
step challenged x = record x { command = on_continuation x.command }

abbrev pub run : List Event → Exchange → Exchange
run [] x = x
run (e ∷ es) x = run es (step e x)

abbrev pub counted : Event → ℕ → ℕ
counted pumped seen = seen
counted challenged seen = suc seen

-- How many challenges came.
abbrev pub challenges : List Event → ℕ → ℕ
challenges [] seen = seen
challenges (e ∷ es) seen = challenges es (counted e seen)

-- All that is ever sent.
abbrev pub full : Bytes → Bytes → List Bytes
full line payload = line ∷ payload ∷ cancel_line ∷ cancel_line ∷ []

-- The second segment: with the response on the command line it is a cancel line already.
abbrev pub second : Bool → Bytes → Bytes
second true payload = cancel_line
second false payload = payload

-- Only the payload is there before its challenge; a cancel line is added by the challenge.
abbrev segments_at : Bool → ℕ → Bytes → Bytes → List Bytes
segments_at true unlocked line payload =
    if leb unlocked 1
    then line ∷ []
    else if unlocked == 2
    then line ∷ cancel_line ∷ []
    else if unlocked == 3
    then line ∷ cancel_line ∷ cancel_line ∷ []
    else full line cancel_line
segments_at false unlocked line payload =
    if leb unlocked 2
    then line ∷ payload ∷ []
    else if unlocked == 3
    then line ∷ payload ∷ cancel_line ∷ []
    else full line payload

record Inv (sasl_ir : Bool) (line payload : Bytes) (seen : ℕ) (x : Exchange) : Type 0 where
  shape : x.command.segments ≡ segments_at sasl_ir x.command.unlocked line payload
  started : 1 ≤ x.command.unlocked
  bounded : x.command.unlocked ≤ 4
  behind : x.command.emitted ≤ x.command.unlocked
  answered : x.command.unlocked ≤ 1 + seen
  in_order : x.sent ≡ take x.command.emitted (full line (second sasl_ir payload))

segment_full :
    (sasl_ir : Bool) (u e : ℕ) (line payload : Bytes)
    → e < u
    → u ≤ 4
    → segment_at (segments_at sasl_ir u line payload) e
      ≡ segment_at (full line (second sasl_ir payload)) e
segment_full true u zero line payload h k = ground arith
segment_full true u (suc zero) line payload h k = ground arith
segment_full true u (suc (suc zero)) line payload h k = ground arith
segment_full true u (suc (suc (suc zero))) line payload h k = ground arith
segment_full true u (suc (suc (suc (suc e)))) line payload h k = absurd (omega arith)
segment_full false u zero line payload h k = ground arith
segment_full false u (suc zero) line payload h k = ground arith
segment_full false u (suc (suc zero)) line payload h k = ground arith
segment_full false u (suc (suc (suc zero))) line payload h k = ground arith
segment_full false u (suc (suc (suc (suc e)))) line payload h k = absurd (omega arith)

take-full :
    (e : ℕ) (line payload : Bytes)
    → e < 4
    → take e (full line payload) ++ segment_at (full line payload) e ∷ []
      ≡ take (e + 1) (full line payload)
take-full zero line payload h = refl
take-full (suc zero) line payload h = refl
take-full (suc (suc zero)) line payload h = refl
take-full (suc (suc (suc zero))) line payload h = refl
take-full (suc (suc (suc (suc e)))) line payload h = absurd (omega arith)

-- The segment that the pump gets, and that it is there.
pump_segment :
    (sasl_ir : Bool) (line payload : Bytes) (seen : ℕ) (x : Exchange)
    → Inv sasl_ir line payload seen x
    → is_empty (next_segment x.command) ≡ false
    → (x.command.emitted < x.command.unlocked)
      × (x.command.emitted < length x.command.segments)
      × (next_segment x.command ≡ segment_at (full line (second sasl_ir payload)) x.command.emitted)
unfolding next_segment
pump_segment true line payload seen x i h =
    ground (arith, segment_full true x.command.unlocked x.command.emitted line payload)
pump_segment false line payload seen x i h =
    ground (arith, segment_full false x.command.unlocked x.command.emitted line payload)

-- What stands in the array, and the next place, for each way to start.
continued-Inv :
    (sasl_ir : Bool) (line payload : Bytes) (seen : ℕ) (x : Exchange)
    → Inv sasl_ir line payload seen x
    → Inv sasl_ir line payload (suc seen) (step challenged x)
unfolding on_continuation
continued-Inv true line payload seen x i = ground arith
continued-Inv false line payload seen x i = ground arith

pumped-Inv :
    (sasl_ir : Bool) (line payload : Bytes) (seen : ℕ) (x : Exchange)
    → Inv sasl_ir line payload seen x
    → Inv sasl_ir line payload seen (step pumped x)
unfolding on_segment_flushed
pumped-Inv sasl_ir line payload seen x i = elim (Bool-cases (is_empty (next_segment x.command))) [
  | inl nothing ↦ rw nothing i
  | inr there ↦
      let (e, l, s) = pump_segment sasl_ir line payload seen x i there in
      rw (there, s) (ground (arith, take-full x.command.emitted line (second sasl_ir payload)))
]

step-Inv :
    (sasl_ir : Bool) (line payload : Bytes) (seen : ℕ) (e : Event) (x : Exchange)
    → Inv sasl_ir line payload seen x
    → Inv sasl_ir line payload (counted e seen) (step e x)
step-Inv sasl_ir line payload seen challenged x i = continued-Inv sasl_ir line payload seen x i
step-Inv sasl_ir line payload seen pumped x i = pumped-Inv sasl_ir line payload seen x i

run-Inv :
    (sasl_ir : Bool) (line payload : Bytes) (es : List Event) (seen : ℕ) (x : Exchange)
    → Inv sasl_ir line payload seen x
    → Inv sasl_ir line payload (challenges es seen) (run es x)
run-Inv sasl_ir line payload [] seen x i = i
run-Inv sasl_ir line payload (e ∷ es) seen x i =
    run-Inv sasl_ir line payload es (counted e seen) (step e x)
      (step-Inv sasl_ir line payload seen e x i)

-- The command behind its rendering, with whether the response goes on the command line.
abbrev pub rendered : Bool → Bytes → Bytes → Bytes → Exchange
rendered sasl_ir tag mechanism response = record {
  command = render tag (new_authenticate mechanism response sasl_ir);
  sent = [];
}

abbrev pub first_line : Bool → Bytes → Bytes → Bytes → Bytes
first_line true tag mechanism response = initial_line tag mechanism (ir_text response)
first_line false tag mechanism response = initial_line tag mechanism []

rendered-Inv :
    (sasl_ir : Bool) (tag mechanism response : Bytes)
    → Inv sasl_ir
        (first_line sasl_ir tag mechanism response)
        (payload_line response)
        0
        (rendered sasl_ir tag mechanism response)
unfolding render
rendered-Inv true tag mechanism response = ground arith
rendered-Inv false tag mechanism response = ground arith

-- What AUTHENTICATE has sent, after any requests of the write pump and challenges of the server, is a prefix
-- of the command line and three more: the payload and two cancel lines, or, if the response stands on the
-- command line, three cancel lines. It has at most one segment more than challenges came.
pub run-rendered :
    (sasl_ir : Bool) (tag mechanism response : Bytes) (es : List Event)
    → let x = run es (rendered sasl_ir tag mechanism response) in
      (x.sent
        ≡ take x.command.emitted (
            full
              (first_line sasl_ir tag mechanism response)
              (second sasl_ir (payload_line response))))
      × (x.command.emitted ≤ 1 + challenges es 0)
      × (x.command.emitted ≤ 4)
run-rendered sasl_ir tag mechanism response es =
    let i =
      run-Inv sasl_ir (first_line sasl_ir tag mechanism response) (payload_line response) es 0
        (rendered sasl_ir tag mechanism response) (rendered-Inv sasl_ir tag mechanism response) in
    (i.in_order, omega (arith, i.answered, i.behind), omega (arith, i.bounded, i.behind))
