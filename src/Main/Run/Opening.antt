-- ===== src/Main/Run/Opening.antt =====
-- src/wrk.c, main: the transport that it chooses, and the lines that it prints before it sleeps.
use wrk_offloadenginesupport.Prelude.{
  ℕ, ◌≡◌, ◌≢◌, ◌⊎◌, inl, inr, refl, sym, ap, ◌∙◌, Bool, true, false, Bool-cases, if◌then◌else◌,
  Option, none, some, List, [], ◌∷◌, ◌++◌, Bytes, codes, take,
}
use mathlib.Core.Option.{some-injective}
use wrk_offloadenginesupport.Floating.{LongDouble}
use wrk_offloadenginesupport.Units.Decimal.{decimal}
use wrk_offloadenginesupport.Units.Format.{format_time_s}
use wrk_offloadenginesupport.Net.{Sock, plain_sock, tls_sock}
use wrk_offloadenginesupport.Net.Context.{SslAnswers, SslCall}
use wrk_offloadenginesupport.Arguments.{Parsed}
use wrk_offloadenginesupport.Lua.{Result, ok, raised, Lua}
use wrk_offloadenginesupport.Script.Histograms.{text_eq}
use wrk_offloadenginesupport.Script.Histograms.Index.{text_eq-eq, text_eq_refl}
use wrk_offloadenginesupport.Main.Start.{is_https, choose_transport}
use wrk_offloadenginesupport.Main.Run.{Outside, running_lines}

module _ (F : LongDouble) (L : Lua) (fuel : ℕ) (o : Outside L) where
  -- The lines that are printed before the sleep.
  abbrev pub Announced : Parsed → Bytes → Type 0
  Announced p lines =
      (time : Bytes) × (format_time_s F (F.ratio p.arguments.duration 1) ≡ some time)
      × (lines
          ≡ codes "Running "
            ++ time
            ++ codes " test @ "
            ++ p.url
            ++ 10 ∷ codes "  "
            ++ decimal p.arguments.threads
            ++ codes " threads and "
            ++ decimal p.arguments.connections
            ++ codes " connections"
            ++ 10 ∷ [])

  pub running_lines-Announced :
      (p : Parsed) (lines : Bytes) → running_lines F L fuel o p ≡ some lines → Announced p lines
  unfolding running_lines
  running_lines-Announced p lines e =
      by_time (format_time_s F (F.ratio p.arguments.duration 1)) refl e
    where
      shown : Bytes → Bytes
      shown time =
          codes "Running "
          ++ time
          ++ codes " test @ "
          ++ p.url
          ++ 10 ∷ codes "  "
          ++ decimal p.arguments.threads
          ++ codes " threads and "
          ++ decimal p.arguments.connections
          ++ codes " connections"
          ++ 10 ∷ []

      by_time :
          (t : Option Bytes)
          → format_time_s F (F.ratio p.arguments.duration 1) ≡ t
          → elim t [ none ↦ none | some time ↦ some (shown time) ] ≡ some lines
          → Announced p lines
      by_time none same e = absurd (cc)
      by_time (some time) same e = (time, same, sym (some-injective _ _ e))

-- TLS with a context where the URL's scheme begins with "https", and plain sockets with none
-- where it does not.
abbrev pub Transported : Bytes → Bool → Sock → Type 0
Transported schema context sock =
    ((take 5 schema ≡ codes "https") × (context ≡ true) × (sock ≡ tls_sock))
    ⊎ ((take 5 schema ≢ codes "https") × (context ≡ false) × (sock ≡ plain_sock))

https-cases :
    (schema : Bytes)
    → ((is_https schema ≡ true) × (take 5 schema ≡ codes "https"))
      ⊎ ((is_https schema ≡ false) × (take 5 schema ≢ codes "https"))
unfolding is_https
https-cases schema = elim (Bool-cases (text_eq (codes "https") (take 5 schema))) [
  | inl e ↦ inl (e, sym (text_eq-eq (codes "https") (take 5 schema) e))
  | inr e ↦ inr (
    e,
    λ same. absurd (
        not_both (text_eq (codes "https") (take 5 schema)) e
          (ap (text_eq (codes "https")) same ∙ text_eq_refl (codes "https"))),
  )
]
  where
    not_both : (b : Bool) → b ≡ false → b ≡ true → ⊥
    not_both b e f = cc

abbrev picked : Bool → Bool → List SslCall → Result (Bool × Sock × List SslCall)
picked https made cs =
    if https then (if made then ok (true, tls_sock, cs) else raised) else ok (false, plain_sock, [])

made_by :
    (https made : Bool) (cs calls : List SslCall) (context : Bool) (sock : Sock)
    → picked https made cs ≡ ok (context, sock, calls)
    → (context ≡ https) × (sock ≡ (if https then tls_sock else plain_sock))
made_by true true cs calls context sock e = (cc, cc)
made_by true false cs calls context sock e = absurd (cc)
made_by false made cs calls context sock e = (cc, cc)

module _ (init : SslAnswers → Bool × List SslCall) (answers : SslAnswers) where
  choose-made :
      (p : Parsed) (schema : Bytes) (context : Bool) (sock : Sock) (calls : List SslCall)
      → choose_transport init p.arguments schema answers ≡ ok (context, sock, calls)
      → (context ≡ is_https schema) × (sock ≡ (if is_https schema then tls_sock else plain_sock))
  unfolding choose_transport
  choose-made p schema context sock calls e = made_by (is_https schema) _ _ calls context sock e

  pub choose-Transported :
      (p : Parsed) (schema : Bytes) (context : Bool) (sock : Sock) (calls : List SslCall)
      → choose_transport init p.arguments schema answers ≡ ok (context, sock, calls)
      → Transported schema context sock
  choose-Transported p schema context sock calls e =
      let (given, by) = choose-made p schema context sock calls e in
      elim (https-cases schema) [
        | inl (b, same) ↦
            inl (same, given ∙ b, by ∙ ap (λ (t : Bool). if t then tls_sock else plain_sock) b)
        | inr (b, other) ↦
            inr (other, given ∙ b, by ∙ ap (λ (t : Bool). if t then tls_sock else plain_sock) b)
      ]
