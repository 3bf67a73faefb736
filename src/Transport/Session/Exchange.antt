-- ===== src/Transport/Session/Exchange.antt =====
-- What a client sees of a connection: one response for each text, and a close frame last.
use transcribe_service.Prelude.{
  ℕ, String, ◌≡◌, refl, ◌⊎◌, inl, inr, Bool, true, false, Option, none, some, List, [], ◌∷◌, ◌++◌,
  Bool-cases, append_assoc, append-nil, sym, ◌∙◌, if◌then◌else◌,
}
use transcribe_service.Prelude.Exec.{Exn, str, Result, ok, err, lift, pure, ◌>>=◌}
use transcribe_service.Prelude.Text.{take}
use transcribe_service.Json.{Json, body_conversation_id}
use transcribe_service.Schemas.ErrorCodes.{WsCloseCode, close_code_value}
use transcribe_service.Schemas.ErrorScenarios.{
  ProtocolErrorScenario, invalid_json, conversation_id_mismatch, build_response,
  require_ws_close_code,
}
use transcribe_service.Schemas.Response.{Response}
use transcribe_service.Orchestrator.{OrchestratorResult, max_error_details_len}
use transcribe_service.Transport.Session.{
  WebSocket, Handler, Arrival, Received, arrives, disconnects, LoopEnd, waiting, returned,
  disconnected, failed, differs, stamp, answer, decoded_text, handle_text, run_ws_message_loop,
  reject_text, send_error_and_close, mismatch_details,
}

pub data Frame : Type 0 where
  sent : Response → Frame
  closed : ℕ → Frame

-- A socket that keeps what is sent, and stays connected.
abbrev pub recorder : WebSocket (List Frame)
recorder = record {
  accept = pure tt;
  is_connected = λ log. true;
  send_text = λ response log. (ok tt, log ++ sent response ∷ []);
  close = λ code log. (ok tt, log ++ closed code ∷ []);
}

-- An orchestrator that answers by a table, and sends nothing itself.
abbrev pub Table : Type 0
Table = Json → String → Result OrchestratorResult

abbrev pub handler : Table → Handler (List Frame)
handler table raw_json conversation_id = lift (table raw_json conversation_id)

-- The response to a text that is rejected in this way, and the code that the socket is closed with.
abbrev IsRejection :
    ProtocolErrorScenario → String → Option String → String → Response → Option ℕ → Type 0
IsRejection scenario cid details now response code =
    (build_response scenario cid details now ≡ ok response)
    × ((c : WsCloseCode) × (require_ws_close_code scenario ≡ ok c)
        × (code ≡ some (close_code_value c)))

abbrev code_of : OrchestratorResult → Option ℕ
code_of result = if result.disconnect then some (close_code_value result.close_code) else none

module _ (table : Table) (cid : String) where
  -- What a text should be answered: an error for a text that is no JSON, an error for the message of
  -- another conversation, and the orchestrator's response otherwise, with the time that it took.
  abbrev IsAnswer : Arrival → Result Json → Response → Option ℕ → Type 0
  IsAnswer m (err e) response code =
      IsRejection invalid_json cid (some (take max_error_details_len (str e))) m.now response code
  IsAnswer m (ok raw) response code =
      ((differs (body_conversation_id raw) cid ≡ true)
        × ((details : Option String) × (mismatch_details recorder cid m.repr_conversation_id
              ≡ ok details)
            × IsRejection conversation_id_mismatch cid details m.now response code))
      ⊎ ((differs (body_conversation_id raw) cid ≡ false)
          × ((result : OrchestratorResult) × (table raw cid ≡ ok result)
              × (response ≡ stamp m.server_processing_ms result.response)
              × (code ≡ code_of result)))

  -- The orchestrator raises on the text.
  abbrev Raises : Result Json → Exn → Type 0
  Raises (err x) e = ⊥
  Raises (ok raw) e = (differs (body_conversation_id raw) cid ≡ false) × (table raw cid ≡ err e)

  -- How the loop ends on these texts, and the frames that it sends: the answer to each text in order,
  -- until one closes the socket, which is the last, or raises, or the client disconnects.
  pub data Exchange : List Received → LoopEnd → List Frame → Type 0 where
    waits : Exchange [] waiting []
    leaves : (rest : List Received) → Exchange (disconnects ∷ rest) disconnected []
    goes_on :
        (m : Arrival) (rest : List Received) (ended : LoopEnd) (frames : List Frame) (r : Response)
        → IsAnswer m m.decoded r none
        → Exchange rest ended frames
        → Exchange (arrives m ∷ rest) ended (sent r ∷ frames)
    stops :
        (m : Arrival) (rest : List Received) (r : Response) (code : ℕ)
        → IsAnswer m m.decoded r (some code)
        → Exchange (arrives m ∷ rest) returned (sent r ∷ closed code ∷ [])
    raises :
        (m : Arrival) (rest : List Received) (e : Exn)
        → Raises m.decoded e
        → Exchange (arrives m ∷ rest) (failed e) []

  -- The frames that a loop adds to those of `log`.
  abbrev pub IsExchange : List Frame → List Received → LoopEnd × List Frame → Type 0
  IsExchange log received (ended, frames) =
      (added : List Frame) × (frames ≡ log ++ added) × Exchange received ended added

  -- One text: its answer, and a close frame if the loop ends; or an exception, and nothing.
  data IsAnswered (m : Arrival) (d : Result Json) (log : List Frame)
      : Result Bool × List Frame → Type 0 where
    continues :
        (r : Response) → IsAnswer m d r none → IsAnswered m d log (ok true, log ++ sent r ∷ [])
    ends :
        (r : Response) (code : ℕ)
        → IsAnswer m d r (some code)
        → IsAnswered m d log (ok false, (log ++ sent r ∷ []) ++ closed code ∷ [])
    breaks : (e : Exn) → Raises d e → IsAnswered m d log (err e, log)

  answer-IsAnswered :
      (m : Arrival) (raw : Json) (log : List Frame) (result : OrchestratorResult)
      → differs (body_conversation_id raw) cid ≡ false
      → table raw cid ≡ ok result
      → IsAnswered m (ok raw) log (answer recorder m.server_processing_ms result log)
  unfolding answer
  answer-IsAnswered m raw log result same found = elim (Bool-cases result.disconnect) [
    | inl e ↦ rw e (ends _ _ (inr (same, (result, found, refl, rw e refl))))
    | inr e ↦ rw e (continues _ (inr (same, (result, found, refl, rw e refl))))
  ]

  handled-IsAnswered :
      (m : Arrival) (raw : Json) (log : List Frame) (r : Result OrchestratorResult)
      → differs (body_conversation_id raw) cid ≡ false
      → table raw cid ≡ r
      → IsAnswered m (ok raw) log ((lift r >>= answer recorder m.server_processing_ms) log)
  handled-IsAnswered m raw log (ok result) same found =
      answer-IsAnswered m raw log result same found
  handled-IsAnswered m raw log (err e) same found = breaks e (same, found)

  decoded-IsAnswered :
      (m : Arrival) (d : Result Json) (log : List Frame)
      → IsAnswered m d log (decoded_text recorder (handler table) cid m d log)
  unfolding decoded_text reject_text send_error_and_close
  decoded-IsAnswered m (err e) log = ends _ _ (refl, (_, refl, refl))
  decoded-IsAnswered m (ok raw) log = elim (Bool-cases (differs (body_conversation_id raw) cid)) [
    | inl e ↦ rw e (ends _ _ (inl (e, (_, refl, (refl, (_, refl, refl))))))
    | inr e ↦ rw e (handled-IsAnswered m raw log (table raw cid) e refl)
  ]

  abbrev loop : List Received → List Frame → LoopEnd × List Frame
  loop received log = run_ws_message_loop recorder (handler table) cid received log

  abbrev after_text : List Received → Result Bool × List Frame → LoopEnd × List Frame
  after_text rest d = elim d.0 [
    | ok b ↦ if b then loop rest d.1 else (returned, d.1)
    | err e ↦ (failed e, d.1)
  ]

  after_text-IsExchange :
      (m : Arrival) (rest : List Received) (log : List Frame)
      → ((next : List Frame) → IsExchange next rest (loop rest next))
      → {d : Result Bool × List Frame} → IsAnswered m m.decoded log d
      → IsExchange log (arrives m ∷ rest) (after_text rest d)
  after_text-IsExchange m rest log ih (continues r right) =
      let (added, same, exchange) = ih (log ++ sent r ∷ []) in
      (
        sent r ∷ added,
        same ∙ append_assoc log (sent r ∷ []) added,
        goes_on m rest _ added r right exchange,
      )
  after_text-IsExchange m rest log ih (ends r code right) = (
    sent r ∷ closed code ∷ [],
    append_assoc log (sent r ∷ []) (closed code ∷ []),
    stops m rest r code right,
  )
  after_text-IsExchange m rest log ih (breaks e raised) =
      ([], sym (append-nil log), raises m rest e raised)

  -- For any texts and any table of answers on a socket that stays connected: the frames that the loop
  -- sends are an answer to each text in order. A text that is no JSON, or whose message is of another
  -- conversation, gets the error frame of that scenario, and then the close frame with its code, which is
  -- the last; every other text gets the orchestrator's response, stamped with the time that it took, and
  -- a close frame exactly if the result says so. A text on which the orchestrator raises gets no frame and
  -- ends the loop, as a disconnect does; a loop that still waits has answered every text.
  pub run_ws_message_loop-IsExchange :
      (received : List Received) (log : List Frame)
      → IsExchange log received (run_ws_message_loop recorder (handler table) cid received log)
  unfolding run_ws_message_loop handle_text
  run_ws_message_loop-IsExchange [] log = ([], sym (append-nil log), waits)
  run_ws_message_loop-IsExchange (disconnects ∷ rest) log = ([], sym (append-nil log), leaves rest)
  run_ws_message_loop-IsExchange (arrives m ∷ rest) log =
      after_text-IsExchange m rest log (run_ws_message_loop-IsExchange rest)
        (decoded-IsAnswered m m.decoded log)
