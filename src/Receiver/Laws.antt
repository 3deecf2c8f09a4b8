-- ===== src/Receiver/Laws.antt =====
-- What an upload to voucher_receiver_handler.go leaves behind, accepted or not.
use go_fdo_voucher_managemen.Prelude.{
  ℕ, ◌≡◌, refl, ◌∙◌, ap, inl, inr, String, Bool, true, false, ◌&&◌, not, Option, none, some, ◌==◌,
  Bool-cases, if◌then◌else◌, arith,
}
use go_fdo_voucher_managemen.Prelude.Int.{pos, ltb_ℤ}
use go_fdo_voucher_managemen.Backend.{Result, ok, err, Exec, Backend, pure, attempt, ◌>>=◌}
use go_fdo_voucher_managemen.Backend.Laws.{IsReliable}
use go_fdo_voucher_managemen.Environment.{Environment}
use go_fdo_voucher_managemen.Partner.{PartnerTable, is_trusted_supplier}
use go_fdo_voucher_managemen.Tokens.{ReceiverTables}
use go_fdo_voucher_managemen.World.{on_partners}
use go_fdo_voucher_managemen.Receiver.{
  Server, on_world, on_receiver, max_voucher_size, VoucherReceiverHandler, UploadedFile, UploadForm,
  UploadRequest, AuthResult, auth_ok, auth_none, auth_invalid, authenticate, after_trust,
  store_voucher, check_maker, after_parse, after_read, after_file, after_form, after_auth,
  serve_http, check_token,
}
use go_fdo_voucher_managemen.Receiver.Outcome.{Checked, Outcome, at, store-Outcome}

-- the trust check always answers
pub supplier_known :
    (env : Environment) (key : env.PublicKey) (q : Backend PartnerTable)
    → (id : String) × (t : Bool) × ((is_trusted_supplier env key q).0 ≡ ok (id, t))
unfolding is_trusted_supplier ◌>>=◌ attempt pure
supplier_known env key q = (_, _, refl)

module _ (env : Environment) (h : VoucherReceiverHandler) (now : ℕ) (r : UploadRequest) (s : Server)
    (rel : IsReliable s.world.disk) (b : Backend ReceiverTables) (ip token : String)
    (auth : (authenticate h.config now r.authorization s.receiver).0 ≡ ok (token, auth_ok)) where
  module _ (form : UploadForm) (file : UploadedFile) (text : String) (voucher : env.Voucher)
      (sent : (r.form ≡ ok form) × (form.file ≡ ok file) × (file.content ≡ ok text))
      (small : ltb_ℤ (pos max_voucher_size) file.size ≡ false)
      (parsed : env.parse_voucher text ≡ ok voucher) where
    abbrev Trusted : Type 0
    Trusted =
        h.has_partner_store ≡ true
        → h.config.voucher_receiver.require_trusted_manufacturer ≡ true
        → (key : env.PublicKey) × (id : String) × (env.manufacturer_key voucher ≡ ok key)
          × ((is_trusted_supplier env key s.world.partners).0 ≡ ok (id, true))

    checked : Trusted → Checked env h now r s
    checked trusted = record {
      form = form;
      file = file;
      text = text;
      voucher = voucher;
      sent = sent;
      small = small;
      parsed = parsed;
      authentic = (token, auth);
      trusted = trusted;
    }

    trust-Outcome :
        (key : env.PublicKey) (q : Backend PartnerTable) (id : String) (t : Bool)
        → env.manufacturer_key voucher ≡ ok key
        → (is_trusted_supplier env key s.world.partners).0 ≡ ok (id, t)
        → Outcome env h now r s (
            after_trust env h now form file.size ip token text voucher
              (id, t)
              (at env h now r s q b))
    unfolding pure checked
    trust-Outcome key q id t made asked =
        elim (Bool-cases (not t && h.config.voucher_receiver.require_trusted_manufacturer)) [
          | inl e ↦ rw e (inl (_, _, refl, refl, refl))
          | inr e ↦ rw e (
              store-Outcome env h now r s rel
                (checked (λ has required.
                  (key, id, made, asked ∙ ap (λ x. ok (id, x)) (ground (arith, e, required)))))
                q b file.size ip token)
        ]

    maker-Outcome :
        (o : Result env.PublicKey)
        → env.manufacturer_key voucher ≡ o
        → Outcome env h now r s (
            check_maker env h now form file.size ip token text voucher o
              (at env h now r s s.world.partners b))
    unfolding pure on_world on_partners ◌>>=◌
    maker-Outcome (err e) made = inl (_, _, refl, refl, refl)
    maker-Outcome (ok key) made =
        let (id, t, asked) = supplier_known env key s.world.partners in
        rw asked
          (trust-Outcome key (is_trusted_supplier env key s.world.partners).1 id t made asked)

    voucher-Outcome : Outcome env h now r s (
        after_parse env h now form file.size ip token text
          (ok voucher)
          (at env h now r s s.world.partners b))
    unfolding checked
    voucher-Outcome = go h.has_partner_store refl
      where
        go :
            (c : Bool)
            → h.has_partner_store ≡ c
            → Outcome env h now r s (
                (if c
                    then check_maker env h now form file.size ip token text voucher
                        (env.manufacturer_key voucher)
                    else store_voucher env h now form file.size ip token text voucher)
                  (at env h now r s s.world.partners b))
        go true e = maker-Outcome (env.manufacturer_key voucher) refl
        go false e =
            store-Outcome env h now r s rel (checked (λ has required. absurd (cc))) s.world.partners
              b file.size ip token

  abbrev from_here : Server
  from_here = at env h now r s s.world.partners b

  text-Outcome :
      (form : UploadForm) (file : UploadedFile) (o : Result String)
      → r.form ≡ ok form
      → form.file ≡ ok file
      → ltb_ℤ (pos max_voucher_size) file.size ≡ false
      → file.content ≡ o
      → Outcome env h now r s (after_read env h now form file.size ip token o from_here)
  unfolding pure
  text-Outcome form file (err e) sent part small content = inl (_, _, refl, refl, refl)
  text-Outcome form file (ok text) sent part small content = go (env.parse_voucher text) refl
    where
      go :
          (o : Result env.Voucher)
          → env.parse_voucher text ≡ o
          → Outcome env h now r s (after_parse env h now form file.size ip token text o from_here)
      go (err e) parsed = inl (_, _, refl, refl, refl)
      go (ok voucher) parsed =
          voucher-Outcome form file text voucher (sent, part, content) small parsed

  form-Outcome :
      (o : Result UploadForm)
      → r.form ≡ o
      → Outcome env h now r s (after_form env h now ip token o from_here)
  unfolding pure
  form-Outcome (err e) sent = inl (_, _, refl, refl, refl)
  form-Outcome (ok form) sent = go form.file refl
    where
      go :
          (o : Result UploadedFile)
          → form.file ≡ o
          → Outcome env h now r s (after_file env h now form ip token o from_here)
      go (err e) part = inl (_, _, refl, refl, refl)
      go (ok file) part = elim (Bool-cases (ltb_ℤ (pos max_voucher_size) file.size)) [
        | inl e ↦ rw e (inl (_, _, refl, refl, refl))
        | inr e ↦ rw e (text-Outcome form file file.content sent part e refl)
      ]

-- an action that makes no error
record AlwaysAnswers (m : Exec (Backend ReceiverTables) (String × AuthResult)) : Type 0 where
  on :
      (b : Backend ReceiverTables) → (token : String) × (a : AuthResult) × ((m b).0 ≡ ok (token, a))

AlwaysAnswers-if :
    (c : Bool) (m n : Exec (Backend ReceiverTables) (String × AuthResult))
    → AlwaysAnswers m
    → AlwaysAnswers n
    → AlwaysAnswers (if c then m else n)
AlwaysAnswers-if true m n k l = k
AlwaysAnswers-if false m n k l = l

AlwaysAnswers-pure : (a : String × AuthResult) → AlwaysAnswers (pure a)
unfolding pure
AlwaysAnswers-pure (token, a) = record { on = λ b. (token, a, refl) }

AlwaysAnswers-check_token :
    (h : VoucherReceiverHandler) (now : ℕ) (o : Option String)
    → AlwaysAnswers (check_token h.config now o)
unfolding ◌>>=◌ attempt pure
AlwaysAnswers-check_token h now none = AlwaysAnswers-pure _
AlwaysAnswers-check_token h now (some token) =
    AlwaysAnswers-if _ _ _ (AlwaysAnswers-pure _) (record { on = λ b. (_, _, refl) })

-- the check of a token always answers
AlwaysAnswers-authenticate :
    (h : VoucherReceiverHandler) (now : ℕ) (header : String)
    → AlwaysAnswers (authenticate h.config now header)
unfolding authenticate
AlwaysAnswers-authenticate h now header =
    search (AlwaysAnswers-if, AlwaysAnswers-pure, AlwaysAnswers-check_token)

-- With a disk that does not fail, an upload is refused, and then the voucher files and the
-- transmissions are as they were, or it is accepted. Then the caller was authenticated, the
-- text was a voucher within the size limit, its manufacturer is a trusted supplier if that is
-- required and there is a partner store, no file had its GUID, and its PEM text is stored under it;
-- the transmissions are as they were, and the answer names the GUID and the pipeline's job.
pub serve_http-Outcome :
    (env : Environment) (h : VoucherReceiverHandler) (now : ℕ) (r : UploadRequest) (s : Server)
    → IsReliable s.world.disk
    → Outcome env h now r s (serve_http env h now r s)
unfolding serve_http on_receiver ◌>>=◌ pure
serve_http-Outcome env h now r s rel = elim (Bool-cases (r.method == "POST")) [
  | inr e ↦ rw e (inl (_, _, refl, refl, refl))
  | inl e ↦
      (let (token, a, asked) = (AlwaysAnswers-authenticate h now r.authorization).on s.receiver in
        rw (e, asked) (go token a asked))
]
  where
    go :
        (token : String) (a : AuthResult)
        → (authenticate h.config now r.authorization s.receiver).0 ≡ ok (token, a)
        → Outcome env h now r s (
            after_auth env h now r
              (token, a)
              (at env h now r s s.world.partners
                (authenticate h.config now r.authorization s.receiver).1))
    go token auth_none asked = inl (_, _, refl, refl, refl)
    go token auth_invalid asked = inl (_, _, refl, refl, refl)
    go token auth_ok asked = form-Outcome env h now r s rel _ _ token asked r.form refl
