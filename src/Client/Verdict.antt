-- ===== src/Client/Verdict.antt =====
-- The client's verdict on a response of the server.
use sunet.Base.{
  ℕ, suc, ◌≡◌, ◌≢◌, refl, sym, ap, ◌∙◌, false, [], ◌∷◌, none, some, Bytes, codes, length, drop,
  take, ltb, same, same→eq, bytes_order, Bool-cases, Option-cases, inl, inr, ◌⊎◌, arith,
}
use sunet.Base.Int.{ℤ, pos, negsuc, ltb_ℤ, int_order}
use sunet.Http.{Result, ok, fault, Fault, c_str}
use sunet.Io.{out_env}
use sunet.Io.Epoll.Laws.{drop_all}
use sunet.Client.{ClientOs, Client, ◌>>=◌, reply_wrong, client_send, received_buf, connect_svr}

Result-cases {ℓ} :
    {A : Type ℓ} (r : Result A) → ((e : Fault) × (r ≡ fault e)) ⊎ ((a : A) × (r ≡ ok a))
Result-cases (ok a) = inr (a, refl)
Result-cases (fault e) = inl (e, refl)

ok_inj {ℓ} : {A : Type ℓ} {a b : A} → ok a ≡ ok b → a ≡ b
ok_inj p = cc p

-- A text that does not begin with `He` is not the one that the client waits for.
not_expected :
    (r : Bytes) (t : Bytes) → r ≡ b'H' ∷ b'T' ∷ t → same r (codes "Hello from svr!") ≡ false
not_expected r t q = elim (Bool-cases (same r (codes "Hello from svr!"))) [
  | inr e ↦ e
  | inl e ↦ ground (arith, sym q ∙ same→eq r (codes "Hello from svr!") e)
]

c_str_two : (s r : Bytes) → c_str (b'H' ∷ b'T' ∷ s) ≡ ok r → (t : Bytes) × (r ≡ b'H' ∷ b'T' ∷ t)
unfolding c_str
c_str_two s r h = elim (Result-cases (c_str s)) [
  | inl (e, q) ↦ cc (rw q at h)
  | inr (t, q) ↦ (t, sym (ok_inj (rw q at h)))
]

other_fd : (fd : ℤ) → fd ≢ negsuc 0 → same (negsuc 0) fd ≡ false
other_fd fd h = elim (Bool-cases (same (negsuc 0) fd)) [
  | inl e ↦ absurd (h (sym (same→eq (negsuc 0) fd e)))
  | inr e ↦ e
]

module _ {ℓ} {W : Type ℓ} (os : ClientOs W) where
  client_send_ends :
      (fuel : ℕ) (fd : ℤ) (text : Bytes) (w : W)
      → (w' : W) × (client_send os (suc (suc fuel)) fd text w ≡ some w')
  unfolding client_send
  client_send_ends fuel fd [] w = (w, refl)
  client_send_ends fuel fd (c ∷ left) w =
      let w₁ = (os.send fd (c ∷ left) w).1 in
      elim (Option-cases (os.send fd (c ∷ left) w).0) [
        | inl e ↦ (w₁, rw (client_send, e) refl)
        | inr (n, e) ↦ elim (Bool-cases (ltb n (length (c ∷ left)))) [
          | inl t ↦ (w₁, rw (client_send, e, t) refl)
          | inr t ↦
              let q : drop n (c ∷ left) ≡ [] = drop_all n (c ∷ left) (ground (arith, t)) in
              (w₁, rw (client_send, e, t, q) refl)
        ]
      ]

  -- How an exchange ends whose reply begins as a response of the server does.
  verdict :
      (http_str fresh s : Bytes) (client : Client) (w : W)
      → client.clt_sock_fd ≢ negsuc 0
      → ltb_ℤ (os.connect client.clt_sock_fd client.srv_addr w).0 (pos 0) ≡ false
      → ((v : W) → received_buf fresh (os.recv client.clt_sock_fd v).0 ≡ b'H' ∷ b'T' ∷ s)
      → ((e : Fault) × (c_str (b'H' ∷ b'T' ∷ s) ≡ fault e)
          × (connect_svr os http_str fresh client w ≡ none))
        ⊎ ((w' : W) × (connect_svr os http_str fresh client w ≡ some (reply_wrong, w')))
  unfolding connect_svr
  verdict http_str fresh s client w opened connected got =
      let fd = client.clt_sock_fd in
      let sock : same (negsuc 0) fd ≡ false = other_fd fd opened in
      let w₁ = (os.connect fd client.srv_addr w).1 in
      let (w₂, sent) = client_send_ends (length http_str) fd http_str w₁ in
      elim (Result-cases (c_str (b'H' ∷ b'T' ∷ s))) [
        | inl (e, q) ↦ inl (e, q, rw (connect_svr, sock, connected, sent, ◌>>=◌, got w₂, q) refl)
        | inr (r, q) ↦
            let (t, begins) = c_str_two s r q in
            let wrong = not_expected r t begins in
            inr (
              os.close fd (os.recv fd w₂).1,
              rw (connect_svr, sock, connected, sent, ◌>>=◌, got w₂, q, wrong) refl,
            )
      ]

  -- The client is connected, and `recv` gives at least two bytes of a response of the server. Then
  -- it never prints that the reply is right: it prints that it is wrong and closes the socket, or, where no zero
  -- stands in the buffer, reads behind it.
  pub connect_svr-out_env :
      (http_str fresh body : Bytes) (n : ℕ) (client : Client) (w : W)
      → client.clt_sock_fd ≢ negsuc 0
      → ltb_ℤ (os.connect client.clt_sock_fd client.srv_addr w).0 (pos 0) ≡ false
      → ((v : W) → (os.recv client.clt_sock_fd v).0 ≡ some (take (suc (suc n)) (out_env body)))
      → let buf = received_buf fresh (some (take (suc (suc n)) (out_env body))) in
        ((e : Fault) × (c_str buf ≡ fault e) × (connect_svr os http_str fresh client w ≡ none))
        ⊎ ((w' : W) × (connect_svr os http_str fresh client w ≡ some (reply_wrong, w')))
  unfolding out_env received_buf
  connect_svr-out_env http_str fresh body n client w opened connected got =
      verdict http_str fresh _ client w opened connected (λ v. ap (received_buf fresh) (got v))
