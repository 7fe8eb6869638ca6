-- ===== src/Client/Follow.antt =====
-- The client follows the redirections that the Name Server sends.
use mathlib.Core.List.{append_assoc}
use lang_os_distributed_file.Base.{
  ℕ, Option, none, some, true, [], ◌∷◌, ◌++◌, Text, ℤ, lit, ◌≡◌, ◌≢◌, ◌∙◌, refl, ap, arith, strtok,
  str_eq, starts_with, atoi, atoi-print_int, print_int, print_int-plain, print_int-given, none_of,
  member, strtok-token,
}
use lang_os_distributed_file.Server.{StorageServer}
use lang_os_distributed_file.Server.Redirect
use lang_os_distributed_file.Client.Reply.{
  Reaction, ss_read, ss_stream, ss_write, nothing, redirect_if, follow_redirect, react,
}

follow-tokens :
    (reply : Text) (t i p f : Option Text) (s₁ s₂ s₃ s₄ : Text)
    → strtok (lit ";") reply ≡ (t, s₁)
    → strtok (lit ";") s₁ ≡ (i, s₂)
    → strtok (lit ";") s₂ ≡ (p, s₃)
    → strtok (lit ";\n") s₃ ≡ (f, s₄)
    → follow_redirect reply ≡ redirect_if t i p f s₄
unfolding follow_redirect
follow-tokens reply t i p f s₁ s₂ s₃ s₄ first second third fourth =
    rw (follow_redirect, first, second, third, fourth) refl

none_of-fewer : (t : Text) → none_of (lit ";\n") t ≡ true → none_of (lit ";") t ≡ true
unfolding none_of member
none_of-fewer [] h = refl
none_of-fewer (c ∷ t) h = ground (arith, h, none_of-fewer t)

-- An address and a name that pass through the reply as one token each.
pub record IsAddress (ss : StorageServer) (f : Text) : Type 0 where
  pub ip_given : ss.ip_addr ≢ []
  pub ip_plain : none_of (lit ";") ss.ip_addr ≡ true
  pub given : f ≢ []
  pub plain : none_of (lit ";\n") f ≡ true

-- A reply that begins as a redirection does, with what stands behind the name.
abbrev reply_of : Text → StorageServer → Text → ℕ → Text → Text
reply_of kind ss f d rest =
    kind ++ b';' ∷ (ss.ip_addr ++ b';' ∷ (print_int ss.port ++ b';' ∷ (f ++ d ∷ rest)))

follow-reply :
    (kind : Text) (ss : StorageServer) (f : Text) (d : ℕ) (rest : Text)
    → none_of (lit ";") kind ≡ true
    → kind ≢ []
    → member d (lit ";\n") ≡ true
    → IsAddress ss f
    → follow_redirect (reply_of kind ss f d rest)
      ≡ redirect_if (some kind) (some ss.ip_addr) (some (print_int ss.port)) (some f) rest
follow-reply kind ss f d rest plain given m a =
    follow-tokens _ _ _ _ _ _ _ _ _
      (strtok-token (lit ";") kind b';' _ plain given (unfold member in refl))
      (strtok-token (lit ";") ss.ip_addr b';' _ a.ip_plain a.ip_given (unfold member in refl))
      (strtok-token (lit ";") (print_int ss.port) b';' _ (none_of-fewer _ (print_int-plain ss.port))
        (print_int-given ss.port) (unfold member in refl))
      (strtok-token (lit ";\n") f d rest a.plain a.given m)

react-reply :
    (ss : StorageServer) (f : Text) (d : ℕ) (rest : Text)
    → (react (reply_of (lit "REDIRECT_READ") ss f d rest)
        ≡ follow_redirect (reply_of (lit "REDIRECT_READ") ss f d rest))
      × ((react (reply_of (lit "REDIRECT_STREAM") ss f d rest)
            ≡ follow_redirect (reply_of (lit "REDIRECT_STREAM") ss f d rest))
          × (react (reply_of (lit "REDIRECT_WRITE") ss f d rest)
              ≡ follow_redirect (reply_of (lit "REDIRECT_WRITE") ss f d rest)))
unfolding react starts_with
react-reply ss f d rest = (refl, (refl, refl))

-- What the three kinds lead to, with the port read back.
reads :
    (ss : StorageServer) (f s : Text)
    → redirect_if
        (some (lit "REDIRECT_READ"))
        (some ss.ip_addr)
        (some (print_int ss.port))
        (some f)
        s
      ≡ ss_read ss.ip_addr ss.port f
unfolding redirect_if str_eq
reads ss f s = ap (λ port. ss_read ss.ip_addr port f) (atoi-print_int ss.port)

streams :
    (ss : StorageServer) (f s : Text)
    → redirect_if
        (some (lit "REDIRECT_STREAM"))
        (some ss.ip_addr)
        (some (print_int ss.port))
        (some f)
        s
      ≡ ss_stream ss.ip_addr ss.port f
unfolding redirect_if str_eq
streams ss f s = ap (λ port. ss_stream ss.ip_addr port f) (atoi-print_int ss.port)

writes :
    (ss : StorageServer) (f : Text) (n : ℤ)
    → redirect_if
        (some (lit "REDIRECT_WRITE"))
        (some ss.ip_addr)
        (some (print_int ss.port))
        (some f)
        (print_int n ++ lit "\n")
      ≡ ss_write ss.ip_addr ss.port f n
unfolding redirect_if str_eq
writes ss f n =
    let number : strtok (lit ";\n") (print_int n ++ lit "\n") ≡ (some (print_int n), []) =
      strtok-token (lit ";\n") (print_int n) 10 [] (print_int-plain n) (print_int-given n)
        (unfold member in refl) in
    ap
      (λ (t : Option Text × Text). elim t.0 as (λ x. Reaction) [
        | none ↦ nothing
        | some m ↦ ss_write ss.ip_addr (atoi (print_int ss.port)) f (atoi m)
      ])
      number
    ∙ ap (λ port. ss_write ss.ip_addr port f (atoi (print_int n))) (atoi-print_int ss.port)
    ∙ ap (λ m. ss_write ss.ip_addr ss.port f m) (atoi-print_int n)

redirect-reply_of :
    (kind : Text) (ss : StorageServer) (f : Text)
    → Redirect.redirect kind ss f ++ lit "\n" ≡ reply_of kind ss f 10 []
unfolding Redirect.redirect
redirect-reply_of kind ss f = simp append_assoc

redirect-reply_of_write :
    (ss : StorageServer) (f t : Text)
    → (Redirect.redirect (lit "REDIRECT_WRITE") ss f ++ (lit ";" ++ t)) ++ lit "\n"
      ≡ reply_of (lit "REDIRECT_WRITE") ss f b';' (t ++ lit "\n")
unfolding Redirect.redirect
redirect-reply_of_write ss f t = simp append_assoc

-- The text of a redirection by the Name Server, followed by the newline that stands before the end
-- marker, makes the client do what was meant: read or stream the file at the address and port of the
-- Storage Server, or open a session there for the sentence with the number; where neither the address
-- nor the name is empty or has a semicolon in it, and the name has no newline in it.
pub redirect_followed :
    (ss : StorageServer) (f : Text)
    → IsAddress ss f
    → (react (Redirect.redirect (lit "REDIRECT_READ") ss f ++ lit "\n")
        ≡ ss_read ss.ip_addr ss.port f)
      × ((react (Redirect.redirect (lit "REDIRECT_STREAM") ss f ++ lit "\n")
            ≡ ss_stream ss.ip_addr ss.port f)
          × ((n : ℤ)
              → react (
                  (Redirect.redirect (lit "REDIRECT_WRITE") ss f ++ (lit ";" ++ print_int n))
                  ++ lit "\n")
                ≡ ss_write ss.ip_addr ss.port f n))
redirect_followed ss f a = (
  ap react (redirect-reply_of (lit "REDIRECT_READ") ss f)
      ∙ (react-reply ss f 10 []).0
      ∙ follow-reply (lit "REDIRECT_READ") ss f 10 [] (unfold none_of member in refl) (λ e. cc)
          (unfold member in refl) a
      ∙ reads ss f [],
  (
    ap react (redirect-reply_of (lit "REDIRECT_STREAM") ss f)
        ∙ (react-reply ss f 10 []).1.0
        ∙ follow-reply (lit "REDIRECT_STREAM") ss f 10 [] (unfold none_of member in refl) (λ e. cc)
            (unfold member in refl) a
        ∙ streams ss f [],
    λ n.
        ap react (redirect-reply_of_write ss f (print_int n))
        ∙ (react-reply ss f b';' (print_int n ++ lit "\n")).1.1
        ∙ follow-reply (lit "REDIRECT_WRITE") ss f b';' (print_int n ++ lit "\n")
            (unfold none_of member in refl) (λ e. cc) (unfold member in refl) a
        ∙ writes ss f n,
  ),
)
