-- ===== src/Relayer/Withdrawal/Laws.antt =====
-- What the endpoint for withdrawals does on every path.
use synddb.Prelude.{
  true, sym, ==_iff, ℕ, ◌≡◌, ◌⊎◌, refl, ap, subst, ◌==◌, String, Option, none, some, List, [], ◌∷◌,
  length, if◌then◌else◌, Result, ok, err, bind-ok, arith, inl, inr,
}
use synddb.Shared.Bytes.{Bytes, ascii}
use synddb.Shared.Decimal.{parse}
use synddb.Shared.Message.{strip_0x}
use synddb.Relayer.Submitter.Laws.{TimePasses, Waits, DecidedAt, wait_for_confirmation-Ends}
use synddb.Relayer.Withdrawal.{
  WithdrawalSubmissionRequest, Message, Services, WithdrawalSubmitter, u128_mod,
  validator_signatures, parsed, amount, waited, on_send, sending, code_after, handle, HttpStatus,
  status_ok, accepted, internal_server_error,
}

module _ (w : Services) (self : WithdrawalSubmitter) where
  -- The message that a request is for.
  abbrev pub Asks : WithdrawalSubmissionRequest → Message → Type 0
  Asks request m =
      (w.decode (strip_0x request.message_id) ≡ ok m.message_id)
      × (length m.message_id ≡ 32)
      × (w.parse_address request.target_address ≡ ok m.target_address)
      × (w.decode (strip_0x request.payload) ≡ ok m.payload)
      × (parse u128_mod (ascii request.native_token_amount) ≡ some m.native_token_amount)
      × (w.decode (strip_0x request.sequencer_signature) ≡ ok m.sequencer_signature)
      × (self.rpc_url ≡ ok tt)
      × (m.sequence ≡ request.sequence)
      × (m.timestamp ≡ request.timestamp)
      × (m.validator_signatures ≡ validator_signatures w self.validator_url request.message_id)

  parsed-Asks :
      (request : WithdrawalSubmissionRequest) (m : Message)
      → parsed w self request ≡ ok m
      → Asks request m
  unfolding parsed
  parsed-Asks request m h =
      let (id, e1, h1) = bind-ok (w.decode (strip_0x request.message_id)) _ m h in
      let (u, e2, h2) = bind-ok (if length id == 32 then ok tt else _) _ m h1 in
      let (target, e3, h3) = bind-ok (w.parse_address request.target_address) _ m h2 in
      let (payload, e4, h4) = bind-ok (w.decode (strip_0x request.payload)) _ m h3 in
      let (n, e5, h5) =
        bind-ok (amount (parse u128_mod (ascii request.native_token_amount))) _ m h4 in
      let (sig, e6, h6) = bind-ok (w.decode (strip_0x request.sequencer_signature)) _ m h5 in
      let (v, e7, h7) = bind-ok self.rpc_url _ m h6 in
      whole m _ (e1, sized id u _ e2, e3, e4, amount_some _ n e5, e6, e7, refl, refl, refl) h7
    where
      sized :
          (id : Bytes) (u : Unit {0}) (e : String)
          → ◌≡◌ {A = Result (Unit {0}) String} (if length id == 32 then ok tt else err e) (ok u)
          → length id ≡ 32
      sized id u e h = ground arith

      amount_some : (o : Option ℕ) (n : ℕ) → amount o ≡ ok n → o ≡ some n
      amount_some none n h = absurd cc
      amount_some (some k) n h = cc

      whole :
          (m built : Message)
          → Asks request built
          → ◌≡◌ {A = Result Message String} (ok built) (ok m)
          → Asks request m
      whole m built h e = let same : built ≡ m = cc in subst (Asks request) same h

  Asks-parsed :
      (request : WithdrawalSubmissionRequest) (m : Message)
      → Asks request m
      → parsed w self request ≡ ok m
  unfolding parsed
  Asks-parsed request m (e1, size, e3, e4, e5, e6, e7, es, et, ev) =
      let sized : (length m.message_id == 32) ≡ true = (==_iff (length m.message_id) 32).1 size in
      rw e1 (rw sized (rw e3 (rw e4 (rw e5 (rw e6 (rw e7 (rebuilt m es et ev)))))))
    where
      rebuilt :
          (m : Message)
          → m.sequence ≡ request.sequence
          → m.timestamp ≡ request.timestamp
          → m.validator_signatures ≡ validator_signatures w self.validator_url request.message_id
          → ◌≡◌ {A = Result Message String}
              (ok (record m {
                sequence = request.sequence;
                timestamp = request.timestamp;
                validator_signatures = validator_signatures w self.validator_url request.message_id;
              }))
              (ok m)
      rebuilt m es et ev = rw (sym es, sym et, sym ev) refl

  -- What happened to a request: it asks for no message and nothing is sent, or its message is sent and
  -- the status tells how that went.
  abbrev pub Handled : WithdrawalSubmissionRequest → List Message × Option HttpStatus → Type 0
  Handled request (sent, status) =
      ((sent ≡ []) × (status ≡ some internal_server_error) × ((m : Message) → Asks request m → ⊥))
      ⊎ ((m : Message) × (sent ≡ m ∷ [])
          × Asks request m
          × (((e : String) × (w.send m ≡ err e) × (status ≡ some internal_server_error))
              ⊎ ((tx_hash : Bytes) × (result : Result (Unit {0}) String) × (w.send m ≡ ok tx_hash)
                  × ((until : ℕ) × Waits w.chain self.tx_confirmation_timeout tx_hash 0 until
                      × DecidedAt w.chain self.tx_confirmation_timeout tx_hash result until)
                  × (((result ≡ ok tt) × (status ≡ some status_ok))
                      ⊎ ((e : String) × (result ≡ err e) × (status ≡ some accepted))))))

  on_send-Handled :
      (request : WithdrawalSubmissionRequest) (m : Message)
      → TimePasses w.chain
      → Asks request m
      → (x : Result Bytes String) → w.send m ≡ x
      → Handled request (m ∷ [], code_after w (on_send w self.tx_confirmation_timeout x))
  on_send-Handled request m time asks (err e) bad = inr (m, refl, asks, inl (e, bad, refl))
  on_send-Handled request m time asks (ok tx) good =
      let (result, ends, until, le, waits, decided) =
        wait_for_confirmation-Ends w.chain self.tx_confirmation_timeout tx time in
      inr (m, refl, asks, inr (tx, result, good, (until, waits, decided), told tx _ result ends))
    where
      told :
          (tx : Bytes) (o : Option (Result (Unit {0}) String)) (result : Result (Unit {0}) String)
          → o ≡ some result
          → ((result ≡ ok tt) × (code_after w (waited w tx o) ≡ some status_ok))
            ⊎ ((e : String) × (result ≡ err e) × (code_after w (waited w tx o) ≡ some accepted))
      told tx o (ok done) h = inl (refl, ap (λ x. code_after w (waited w tx x)) h)
      told tx o (err e) h = inr (e, refl, ap (λ x. code_after w (waited w tx x)) h)

  -- If at least a second passes between two polls, every request is answered: with an error and
  -- nothing sent where there is no message that its texts are the parts of, else its message is sent
  -- once. The status is OK if the first poll that tells anything is in time and has a receipt of
  -- success, ACCEPTED if it was sent and the wait ended otherwise, by its time or by a revert, and an
  -- error if it could not be sent.
  pub handle-Handled :
      (request : WithdrawalSubmissionRequest)
      → TimePasses w.chain
      → Handled request (handle w (some self) request)
  unfolding handle
  handle-Handled request time = go (parsed w self request) refl
    where
      go :
          (x : Result Message String)
          → parsed w self request ≡ x
          → Handled request ((sending w self x).sent, code_after w (sending w self x).answer)
      go (err e) h = inl (refl, refl, λ m asks. absurd (let f = Asks-parsed request m asks in cc))
      go (ok m) h = on_send-Handled request m time (parsed-Asks request m h) (w.send m) refl
