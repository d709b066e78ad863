-- ===== src/Communication/Comms/Parts.antt =====
-- `partialize_msg`: a response in parts.
use native.Mathlib.Decide.{dec_lt}
use mathlib.Core.List.{append-nil}
use logic_elements.Base.{
  ℕ, zero, suc, ◌%◌, ◌≤◌, ◌<◌, ◌≡◌, refl, sym, ap, ◌∙◌, Bool, true, false, not, ◌||◌, List, [], ◌∷◌,
  ◌++◌, Option, some, All, ◌==◌, length, take, drop, length-take, length-drop, take-append-drop,
  drop_all, arith, lt→ltb, not_ltb, ◌>>=◌,
}
use logic_elements.Core.Port.{Name}
use logic_elements.Communication.Comms.{
  MsgType, MsgResp, response_partial, response_complete, MsgCategory, request, msg_resp,
  msg_resp_max_length, partialize_loop, partialize_msg,
}

abbrev pub texts : List MsgResp → Name
texts [] = []
texts (p ∷ ps) = p.text ++ texts ps

abbrev pub is_complete : MsgCategory → Bool
is_complete response_complete = true
is_complete response_partial = false
is_complete request = false

-- Some part says that the response is complete.
abbrev pub any_complete : List MsgResp → Bool
any_complete [] = false
any_complete (p ∷ ps) = is_complete p.category || any_complete ps

pub record Partialized (buffer : Name) (r : Option (List MsgResp)) : Type 0 where
  pub parts : List MsgResp
  pub returns : r ≡ some parts
  pub whole : texts parts ≡ buffer
  pub short : All (λ p. length p.text ≤ msg_resp_max_length) parts
  pub completes : any_complete parts ≡ not (length buffer % msg_resp_max_length == 0)

partialize_loop-Partialized :
    (fuel : ℕ) (t : MsgType) (buffer : Name) (bad : Bool)
    → length buffer ≤ fuel
    → Partialized buffer (partialize_loop fuel t buffer bad)
unfolding partialize_loop msg_resp
partialize_loop-Partialized zero t [] bad h = record {
  parts = [];
  returns = refl;
  whole = refl;
  short = tt;
  completes = refl;
}
partialize_loop-Partialized zero t (c ∷ cs) bad h = absurd (omega arith)
partialize_loop-Partialized (suc fuel) t [] bad h = record {
  parts = [];
  returns = refl;
  whole = refl;
  short = tt;
  completes = refl;
}
partialize_loop-Partialized (suc fuel) t (c ∷ cs) bad h =
    let buffer : Name = c ∷ cs in
    elim (dec_lt (length buffer) msg_resp_max_length) [
      | yes p ↦
          let part : MsgResp = record {
            msg_type = t;
            category = response_complete;
            text = buffer;
            bad_response = bad;
          } in
          let rest =
            partialize_loop-Partialized fuel t (drop (length buffer) buffer) bad
              (omega (arith, length-drop (length buffer) buffer)) in
          rw (lt→ltb (length buffer) msg_resp_max_length p) (record {
            parts = part ∷ rest.parts;
            returns =
                ap (λ (r : Option (List MsgResp)). r >>= λ parts. some (part ∷ parts)) rest.returns;
            whole =
                ap (λ (l : Name). buffer ++ l) rest.whole
                ∙ ap (λ (l : Name). buffer ++ l) (drop_all (length buffer) buffer (omega arith))
                ∙ append-nil buffer;
            short = (omega arith, rest.short);
            completes = sym (not_zero (length buffer) (omega arith) p);
          })
      | no p ↦
          let part : MsgResp = record {
            msg_type = t;
            category = response_partial;
            text = take msg_resp_max_length buffer;
            bad_response = bad;
          } in
          let size : length part.text ≡ msg_resp_max_length =
            omega (arith, length-take msg_resp_max_length buffer) in
          let left = length-drop (length part.text) buffer in
          let rest =
            partialize_loop-Partialized fuel t (drop (length part.text) buffer) bad
              (omega (arith, size, left)) in
          rw (not_ltb (length buffer) msg_resp_max_length p) (record {
            parts = part ∷ rest.parts;
            returns =
                ap (λ (r : Option (List MsgResp)). r >>= λ parts. some (part ∷ parts)) rest.returns;
            whole =
                ap (λ (l : Name). part.text ++ l) (rest.whole ∙ ap (λ (k : ℕ). drop k buffer) size)
                ∙ take-append-drop msg_resp_max_length buffer;
            short = (omega (arith, size), rest.short);
            completes = rest.completes ∙ ap (λ (k : ℕ). not (k == 0)) (omega (arith, size, left));
          })
    ]
  where
    not_zero : (n : ℕ) → 0 < n → n < msg_resp_max_length → not (n % msg_resp_max_length == 0) ≡ true
    not_zero n h k = ground arith

-- Splitting a response ends; the parts joined are the response, none is longer than 128 bytes, and
-- some part is marked complete exactly when the length of the response is not a multiple of 128.
pub partialize_msg-Partialized :
    (t : MsgType) (buffer : Name) (bad : Bool) → Partialized buffer (partialize_msg t buffer bad)
unfolding partialize_msg
partialize_msg-Partialized t buffer bad =
    partialize_loop-Partialized (length buffer) t buffer bad (omega arith)
