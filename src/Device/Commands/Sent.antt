-- ===== src/Device/Commands/Sent.antt =====
-- What a client gets for a request: the messages of the command, whole and in order, and the prompt.
use logic_elements.Base.{
  ℕ, ◌≤◌, ◌<◌, ◌≡◌, refl, sym, ap, ap₂, ◌∙◌, Bool, true, false, List, [], ◌∷◌, ◌++◌, map, Option,
  none, some, All, length, ◌>>=◌, arith, length-append, lt→ltb, ltb, not_ltb, take, drop,
  length-take,
}
use mathlib.Core.List.{append_assoc}
use logic_elements.Core.Port.{Name}
use logic_elements.Core.Engine.{Engine}
use logic_elements.Core.Node.{FloatOps}
use logic_elements.Digital.{State}
use logic_elements.Communication.Comms.{
  MsgType, MsgReq, MsgResp, req_unknown, req, req_echo, req_target, req_pulse, req_ser,
  response_partial, msg_resp, partialize_msg, partialize_loop,
}
use logic_elements.Communication.Comms.Parts.{texts, partialize_msg-Partialized}
use logic_elements.Device.Commands.{
  Message, Surroundings, execute, send_responses, send_all, send_message, handle_request,
  request_type, next_prompt, bad_message,
}

abbrev pub joined_texts : List Name → Name
joined_texts [] = []
joined_texts (t ∷ ts) = t ++ joined_texts ts

abbrev pub message_texts : List Message → Name
message_texts [] = []
message_texts (m ∷ ms) = m.0 ++ message_texts ms

joined_texts-append :
    (xs ys : List Name) → joined_texts (xs ++ ys) ≡ joined_texts xs ++ joined_texts ys
joined_texts-append [] ys = refl
joined_texts-append (x ∷ xs) ys =
    ap (λ (l : Name). x ++ l) (joined_texts-append xs ys)
    ∙ sym (append_assoc x (joined_texts xs) (joined_texts ys))

-- Parts with room for a zero byte are sent as they are.
send_responses-short :
    (ps : List MsgResp)
    → All (λ p. length p.text < 128) ps
    → send_responses ps ≡ some (map (λ p. p.text) ps)
unfolding send_responses
send_responses-short [] h = refl
send_responses-short (p ∷ ps) (h, hs) =
    rw (lt→ltb (length p.text) 128 h, send_responses-short ps hs) refl

joined_texts-map : (ps : List MsgResp) → joined_texts (map (λ p. p.text) ps) ≡ texts ps
joined_texts-map [] = refl
joined_texts-map (p ∷ ps) = ap (λ (l : Name). p.text ++ l) (joined_texts-map ps)

-- No part is longer than the whole.
parts_le : (ps : List MsgResp) (n : ℕ) → length (texts ps) < n → All (λ p. length p.text < n) ps
parts_le [] n h = tt
parts_le (p ∷ ps) n h =
    let sum = length-append p.text (texts ps) in (omega arith, parts_le ps n (omega arith))

send_message-short :
    (t : MsgType) (m : Message)
    → length m.0 < 128
    → (ts : List Name) × (send_message t m ≡ some ts) × (joined_texts ts ≡ m.0)
send_message-short t m h =
    let p = partialize_msg-Partialized t m.0 m.1 in
    let small : length (texts p.parts) < 128 = omega (arith, ap length p.whole) in
    (
      map (λ (q : MsgResp). q.text) p.parts,
      rw p.returns (send_responses-short p.parts (parts_le p.parts 128 small)),
      joined_texts-map p.parts ∙ p.whole,
    )

send_all-sent :
    (t : MsgType) (messages : List Message)
    → All (λ m. length m.0 < 128) messages
    → (ts : List Name) × (send_all t messages ≡ some ts)
      × (joined_texts ts ≡ message_texts messages)
unfolding send_all
send_all-sent t [] h = ([], refl, refl)
send_all-sent t (m ∷ messages) (h, hs) =
    let (first, e, whole) = send_message-short t m h in
    let (rest, e', whole') = send_all-sent t messages hs in
    (first ++ rest, rw (e, e') refl, joined_texts-append first rest ∙ ap₂ ◌++◌ whole whole')

-- A request that was understood.
abbrev pub is_known : {F : Type 0} → MsgReq F → Bool
is_known (req_unknown major minor) = false
is_known _ = true

module _ {F : Type 0} (ops : FloatOps F) (byte_as_bool : F → Bool) where
  handled :
      (w : Surroundings) (g : Option (Engine (State F) Bool)) (request : MsgReq F)
      → is_known request ≡ true
      → handle_request ops byte_as_bool w g request ≡ (
          execute ops byte_as_bool w g request >>= λ r.
          send_all (request_type request) r.1 >>= λ ts.
          let q : Option (Engine (State F) Bool) × List Name = (r.0, ts ++ next_prompt ∷ []) in
          some q)
  unfolding handle_request
  handled w g (req t) h = refl
  handled w g (req_echo text) h = refl
  handled w g (req_target name slot repetition delay) h = refl
  handled w g (req_pulse name value duration) h = refl
  handled w g (req_ser number) h = refl
  handled w g (req_unknown major minor) h = cc

  -- For a request that was understood, and whose execution gives messages of fewer than 128 bytes
  -- each, the texts that are written are those of the messages, joined in order, and then the
  -- prompt.
  pub handle_request-sent :
      (w : Surroundings) (g g' : Option (Engine (State F) Bool)) (request : MsgReq F)
      (messages : List Message)
      → is_known request ≡ true
      → execute ops byte_as_bool w g request ≡ some (g', messages)
      → All (λ m. length m.0 < 128) messages
      → (ts : List Name) × (handle_request ops byte_as_bool w g request
          ≡ some (g', ts ++ next_prompt ∷ []))
        × (joined_texts ts ≡ message_texts messages)
  handle_request-sent w g g' request messages known e short =
      let (ts, sent, whole) = send_all-sent (request_type request) messages short in
      (ts, handled w g request known ∙ rw (e, sent) refl, whole)

full_first :
    (o : Option (List MsgResp)) (p : MsgResp)
    → ltb (length p.text) 128 ≡ false
    → p.bad_response ≡ true
    → (o >>= (λ ps. some (p ∷ ps)) >>= send_responses) ≡ none
unfolding send_responses
full_first none p h bad = refl
full_first (some ps) p h bad = rw (h, bad) refl

pub send_message-full :
    (t : MsgType) (text : Name) → 128 ≤ length text → send_message t (bad_message text) ≡ none
unfolding partialize_msg partialize_loop msg_resp
send_message-full t [] h = absurd (omega arith)
send_message-full t (c ∷ cs) h =
    let text = c ∷ cs in
    let size : length (take 128 text) ≡ 128 = omega (arith, length-take 128 text) in
    let part : MsgResp = record {
      msg_type = t;
      category = response_partial;
      text = take 128 text;
      bad_response = true;
    } in
    rw (not_ltb (length text) 128 (omega arith)) (
      full_first (partialize_loop (length cs) t (drop (length part.text) text) true) part
        (not_ltb (length part.text) 128 (omega arith)) refl)
