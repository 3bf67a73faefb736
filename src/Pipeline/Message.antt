-- ===== src/Pipeline/Message.antt =====
-- What one message does to one conversation in Redis and Kafka, whatever fails on the way.
use transcribe_service.Prelude.{
  ℕ, ◌+◌, ◌<◌, String, ◌≡◌, ◌≢◌, refl, ◌⊎◌, inl, inr, true, false, some, List, [], ◌∷◌, ◌++◌, arith,
  ◌∙◌, ap, Bool-cases, sym, subst, false≢true,
}
use transcribe_service.Prelude.Exec.Keeps.{tail-keeps, catch-keeps}
use transcribe_service.Prelude.Exec.{
  timeout_error, str, Result, ok, err, Exec, catch, lift, pure, ◌>>=◌, ◌>>◌,
}
use transcribe_service.Prelude.Text
use transcribe_service.Json.{Json, is_dict, body_conversation_id}
use transcribe_service.Schemas.Events.{EventType, session_ongoing, session_complete}
use transcribe_service.Schemas.Request.{InboundMessage, ValidationError, Pydantic}
use transcribe_service.Redis.Server.{Redis}
use transcribe_service.Redis.Protocols.{
  PrepareResult, pre_check_ok, idempotent, out_of_order, PrepareOutcome,
}
use transcribe_service.Redis.SequenceStateMachine.{Config}
use transcribe_service.Redis.SequenceStateMachine.Scripts.{verdict}
use transcribe_service.Converter.{KafkaPayload, to_kafka_payload}
use transcribe_service.Producer.{Kafka}
use transcribe_service.Schemas.ErrorScenarios.{orchestrator_internal_exception}
use transcribe_service.Orchestrator.{
  OrchestratorResult, Backends, Clock, validated, after_send, persist, after_prepare, process_valid,
  process, handle_message, succeed, cleanup_or_warn, fail_with, max_error_message_len, or_given,
}
use transcribe_service.Orchestrator.Phases.{acknowledged, not_acknowledged}
use transcribe_service.Pipeline.{Weather, World, backends, handle}
use transcribe_service.Pipeline.Effects.{
  IsPositive, At, prepare-At, prepare-verdict, commit-At, cleanup-At, send-At,
}

expected_one : (seq n : ℕ) → pre_check_ok ≡ verdict n seq → seq ≡ n
expected_one seq n h = ground arith

module _ (r : Redis) (k : Kafka) (self : Config) (pos : IsPositive self) (c : String) where
  module _ (weather : Weather) (clock : Clock) where
    abbrev b : Backends (World r k)
    b = backends r k self weather

    cleanup_or_warn-At :
        (cid : String) (ev : EventType) (n : ℕ) (xs : List ℕ) (w : World r k)
        → At r k self c n xs w
        → At r k self c n xs (cleanup_or_warn b clock cid ev w).1
    cleanup_or_warn-At cid session_ongoing n xs w h = h
    cleanup_or_warn-At cid session_complete n xs w h =
        catch-keeps (At r k self c n xs) (b.cleanup cid w) (λ e. ok tt) w
          (cleanup-At r k self c pos weather cid w h)

    -- What follows a commit.
    abbrev rest : InboundMessage → Unit {0} → Exec (World r k) OrchestratorResult
    rest msg u = do
      cleanup_or_warn b clock msg.meta_data.conversation_id msg.meta_data.event_type
      pure (succeed msg clock.responded_at)

    rest-At :
        (msg : InboundMessage) (n : ℕ) (xs : List ℕ) {w : World r k}
        → At r k self c n xs w
        → (u : Unit {0}) → At r k self c n xs (rest msg u w).1
    rest-At msg n xs {w} h u =
        let clean =
          cleanup_or_warn b clock msg.meta_data.conversation_id msg.meta_data.event_type in
        let after =
          cleanup_or_warn-At msg.meta_data.conversation_id msg.meta_data.event_type n xs w h in
        tail-keeps (At r k self c n xs) (clean w) (λ _. pure (succeed msg clock.responded_at)) w
          after (λ _. after)

    raised-acknowledged :
        (d : Result (Unit {0}) × World r k) (f : Unit {0} → Exec (World r k) OrchestratorResult)
        (w : World r k)
        → d.0 ≢ ok tt
        → acknowledged (((λ _. d) >>= f) w).0 ≡ false
    raised-acknowledged (ok u, w') f w lost = absurd (lost refl)
    raised-acknowledged (err e, w') f w lost = refl

    -- What a message may have done, where the conversation expected `n` and had `xs` delivered.
    abbrev pub Post : String → ℕ → ℕ → List ℕ → Result OrchestratorResult × World r k → Type 0
    Post cid seq n xs (res, w') =
        (At r k self c n xs w' × (acknowledged res ≡ true → cid ≡ c → seq < n))
        ⊎ (At r k self c n (xs ++ n ∷ []) w' × (acknowledged res ≡ false))
        ⊎ (At r k self c (n + 1) (xs ++ n ∷ []) w' × (seq ≡ n))

    after_send-Post :
        (msg : InboundMessage) (n : ℕ) (xs : List ℕ) (sent : Result (Unit {0})) (w : World r k)
        → (At r k self c n xs w × (sent ≡ ok tt → msg.meta_data.conversation_id ≢ c))
          ⊎ ((msg.meta_data.conversation_id ≡ c)
              × (msg.payload.sequence_number ≡ n)
              × At r k self c n (xs ++ n ∷ []) w)
        → Post msg.meta_data.conversation_id msg.payload.sequence_number n xs
            (after_send b clock msg sent w)
    unfolding after_send
    after_send-Post msg n xs (ok u) w (inl (a, ne)) =
        let cid = msg.meta_data.conversation_id in
        let seq = msg.payload.sequence_number in
        elim (commit-At r k self c pos weather cid seq w a) [
          | inl (a', _) ↦ inl (
            tail-keeps (At r k self c n xs) (b.commit cid seq w) (rest msg) w a'
                (rest-At msg n xs a'),
            λ _ e. absurd (ne refl e),
          )
          | inr (e, _) ↦ absurd (ne refl e)
        ]
    after_send-Post msg n xs (ok u) w (inr (o, s, a)) =
        let cid = msg.meta_data.conversation_id in
        let seq = msg.payload.sequence_number in
        let ys = xs ++ n ∷ [] in
        elim (commit-At r k self c pos weather cid seq w a) [
          | inl (a', lost) ↦ inr (
              inl (
                tail-keeps (At r k self c n ys) (b.commit cid seq w) (rest msg) w a'
                    (rest-At msg n ys a'),
                raised-acknowledged (b.commit cid seq w) (rest msg) w (λ e. lost e o),
              ))
          | inr (_, a') ↦ inr (
              inr (
                subst (λ m. At r k self c (m + 1) ys (((λ _. b.commit cid seq w) >>= rest msg) w).1)
                    s
                    (tail-keeps (At r k self c (seq + 1) ys) (b.commit cid seq w) (rest msg) w a'
                      (rest-At msg (seq + 1) ys a')),
                s,
              ))
        ]
    after_send-Post msg n xs (err (timeout_error x)) w (inl (a, ne)) = inl (a, λ e. cc)
    after_send-Post msg n xs (err (timeout_error x)) w (inr (o, s, a)) = inr (inl (a, refl))
    after_send-Post msg n xs (err e) w (inl (a, ne)) = inl (a, λ e. cc)
    after_send-Post msg n xs (err e) w (inr (o, s, a)) = inr (inl (a, refl))

    after_prepare-Post :
        (raw : Json) (msg : InboundMessage) (st : PrepareResult) (n : ℕ) (xs : List ℕ)
        (w : World r k)
        → At r k self c n xs w
        → (msg.meta_data.conversation_id ≡ c → st ≡ verdict n msg.payload.sequence_number)
        → Post msg.meta_data.conversation_id msg.payload.sequence_number n xs
            (after_prepare b clock raw msg st w)
    unfolding after_prepare persist to_kafka_payload
    after_prepare-Post raw msg idempotent n xs w h v =
        inl (h, λ _ own. let e = v own in ground arith)
    after_prepare-Post raw msg out_of_order n xs w h v = inl (h, λ e. absurd (false≢true e))
    after_prepare-Post raw msg pre_check_ok n xs w h v = elim (Bool-cases (is_dict raw)) [
      | inl dict ↦ rw dict (
          after_send-Post msg n xs sent.0 sent.1
            (elim (send-At r k self c pos weather cid payload w h) [
              | inl x ↦ inl x
              | inr (own, a) ↦
                  let e = expected_one msg.payload.sequence_number n (v own) in
                  inr (own, e, subst (λ m. At r k self c n (xs ++ m ∷ []) sent.1) e a)
            ]))
      | inr e ↦ rw e (inl (h, λ p. absurd (false≢true p)))
    ]
      where
        cid : String
        cid = msg.meta_data.conversation_id

        payload : KafkaPayload
        payload = to_kafka_payload msg raw clock.produced_at

        sent : Result (Unit {0}) × World r k
        sent = b.send cid payload w

    prepared-Post :
        (raw : Json) (msg : InboundMessage) (n : ℕ) (xs : List ℕ)
        (d : Result PrepareOutcome × World r k) (w : World r k)
        → At r k self c n xs d.1
        → ((o : PrepareOutcome)
            → d.0 ≡ ok o
            → msg.meta_data.conversation_id ≡ c
            → o.status ≡ verdict n msg.payload.sequence_number)
        → Post msg.meta_data.conversation_id msg.payload.sequence_number n xs
            (((λ _. d) >>= λ o. after_prepare b clock raw msg o.status) w)
    prepared-Post raw msg n xs (ok o, w') w h v =
        after_prepare-Post raw msg o.status n xs w' h (v o refl)
    prepared-Post raw msg n xs (err e, w') w h v = inl (h, λ p. absurd (false≢true p))

    process_valid-Post :
        (raw : Json) (msg : InboundMessage) (n : ℕ) (xs : List ℕ) (w : World r k)
        → At r k self c n xs w
        → Post msg.meta_data.conversation_id msg.payload.sequence_number n xs
            (process_valid b clock raw msg w)
    unfolding process_valid
    process_valid-Post raw msg n xs w h =
        let cid = msg.meta_data.conversation_id in
        let seq = msg.payload.sequence_number in
        prepared-Post raw msg n xs (b.prepare cid seq w) w
          (prepare-At r k self c pos weather cid seq w h)
          (λ o e own.
            prepare-verdict r k self c pos weather seq w o h
              (ap (λ x. (b.prepare x seq w).0) (sym own) ∙ e))

    -- The handler of last resort answers with an error, and changes nothing.
    catch-Post :
        (cid own : String) (seq n : ℕ) (xs : List ℕ) (d : Result OrchestratorResult × World r k)
        (w : World r k)
        → Post cid seq n xs d
        → Post cid seq n xs (
            catch
              (λ _. d)
              (λ e. lift (
                fail_with orchestrator_internal_exception own
                  (some (Text.take max_error_message_len (str e)))
                  clock.responded_at))
              w)
    catch-Post cid own seq n xs (ok res, w') w h = h
    catch-Post cid own seq n xs (err e, w') w (inl (a, k')) = inl (
      a,
      λ p. absurd (
          false≢true (
            sym (
              not_acknowledged orchestrator_internal_exception own
                (some (Text.take max_error_message_len (str e))) clock.responded_at)
            ∙ p)),
    )
    catch-Post cid own seq n xs (err e, w') w (inr (inl (a, x))) = inr (
        inl (
          a,
          not_acknowledged orchestrator_internal_exception own
              (some (Text.take max_error_message_len (str e))) clock.responded_at,
        ))
    catch-Post cid own seq n xs (err e, w') w (inr (inr x)) = inr (inr x)

    pub handle-Post :
        (pydantic : Pydantic) (raw : Json) (own : String) (msg : InboundMessage) (n : ℕ)
        (xs : List ℕ) (w : World r k)
        → At r k self c n xs w
        → pydantic.model_validate raw ≡ inr msg
        → Post msg.meta_data.conversation_id msg.payload.sequence_number n xs
            (handle r k self pydantic weather clock raw own w)
    unfolding handle handle_message process
    handle-Post pydantic raw own msg n xs w h accepted = rw accepted (
        catch-Post msg.meta_data.conversation_id (or_given b clock (body_conversation_id raw) own)
          msg.payload.sequence_number n xs (process_valid b clock raw msg w) w
          (process_valid-Post raw msg n xs w h))

    pub handle-rejected :
        (pydantic : Pydantic) (raw : Json) (own : String) (e : ValidationError) (n : ℕ)
        (xs : List ℕ) (w : World r k)
        → At r k self c n xs w
        → pydantic.model_validate raw ≡ inl e
        → At r k self c n xs (handle r k self pydantic weather clock raw own w).1
    unfolding handle handle_message process
    handle-rejected pydantic raw own e n xs w h rejected =
        let cid = or_given b clock (body_conversation_id raw) own in
        rw rejected (
          catch-keeps (At r k self c n xs) (validated b clock raw cid (inl e) w)
            (λ x.
              fail_with orchestrator_internal_exception cid
                (some (Text.take max_error_message_len (str x))) clock.responded_at)
            w h)
