-- ===== src/Net/Forwarded.antt =====
-- What a client can do about the address that is recorded for it.
use Prim.Native.Char.{code}
use Prim.Native.String.{◌++◌ as text_append}
use Prim.Native.String.append as Append
use Prim.Native.String.{char_at}
use it_asset_inventory.Base.{
  String, ◌≡◌, refl, sym, ap, ◌∙◌, subst, inl, inr, Bool, true, false, not, Option, none, some,
  List, [], ◌∷◌, ◌++◌, map, ◌==◌, Bool-cases, Option-cases, truthy, filter, find?, append_nil,
  append_assoc, filter-append, strip, truthy-cons,
}
use it_asset_inventory.Net.ClientIp.{
  comma, split_at, split, pieces, peer_is_trusted, is_proxy_hop, reversed, or_else, parse_xff,
  normalize, by_headers, get_client_ip, Ipaddress, Request,
}

-- Two header values that a proxy has joined.
abbrev pub joined : String → String → String
joined s t = text_append s (text_append "," t)

split_at-joined :
    (s t : String)
    → split_at comma (joined s t) ≡ ((split_at comma s).0, (split_at comma s).1 ++ split comma t)
unfolding split_at
split_at-joined String.[] t =
    rw (Append.nil (text_append "," t), Append.cons (char_at "," 0) "" t, Append.nil t) refl
split_at-joined (String.◌∷◌ c s) t = elim (Bool-cases (code c == comma)) [
  | inl e ↦ rw (Append.cons c s (text_append "," t), split_at-joined s t, e, split_at) refl
  | inr e ↦ rw (Append.cons c s (text_append "," t), split_at-joined s t, e, split_at) refl
]

split-joined : (s t : String) → split comma (joined s t) ≡ split comma s ++ split comma t
split-joined s t = rw (split_at-joined s t) refl

map-append : (f : String → String) (xs ys : List String) → map f (xs ++ ys) ≡ map f xs ++ map f ys
map-append f [] ys = refl
map-append f (x ∷ xs) ys = ap (λ l. f x ∷ l) (map-append f xs ys)

pieces-joined : (s t : String) → pieces (joined s t) ≡ pieces s ++ pieces t
unfolding pieces
pieces-joined s t =
    ap (λ l. filter truthy (map strip l)) (split-joined s t)
    ∙ ap (λ l. filter truthy l) (map-append strip (split comma s) (split comma t))
    ∙ filter-append truthy (map strip (split comma s)) (map strip (split comma t))

reversed-append : (xs ys : List String) → reversed (xs ++ ys) ≡ reversed ys ++ reversed xs
reversed-append [] ys = sym (append_nil (reversed ys))
reversed-append (x ∷ xs) ys =
    rw (reversed-append xs ys) (append_assoc (reversed ys) (reversed xs) (x ∷ []))

find?-append :
    (p : String → Bool) (xs ys : List String)
    → find? p (xs ++ ys) ≡ or_else (find? p xs) (find? p ys)
find?-append p [] ys = refl
find?-append p (x ∷ xs) ys = elim (Bool-cases (p x)) [
  | inl e ↦ rw e refl
  | inr e ↦ rw e (find?-append p xs ys)
]

-- The rightmost hop that is not a trusted proxy.
abbrev pub vouched : Ipaddress → String → String → Option String
vouched lib raw xff = find? (λ hop. not (is_proxy_hop lib raw hop)) (reversed (pieces xff))

parse_xff-joined :
    (lib : Ipaddress) (raw s t real : String)
    → vouched lib raw t ≡ some real
    → parse_xff lib raw (joined s t) ≡ some real
unfolding parse_xff
parse_xff-joined lib raw s t real v =
    let p = λ (hop : String). not (is_proxy_hop lib raw hop) in
    let all : find? p (reversed (pieces (joined s t))) ≡ some real =
      ap (λ l. find? p (reversed l)) (pieces-joined s t)
      ∙ ap (λ l. find? p l) (reversed-append (pieces s) (pieces t))
      ∙ find?-append p (reversed (pieces t)) (reversed (pieces s))
      ∙ ap (λ o. or_else o (find? p (reversed (pieces s)))) v in
    rw (all, parse_xff) refl

truthy-joined : (s t : String) → truthy (joined s t) ≡ true
truthy-joined String.[] t =
    rw (Append.nil (text_append "," t), Append.cons (char_at "," 0) "" t) (truthy-cons _ _)
truthy-joined (String.◌∷◌ c s) t = rw (Append.cons c s (text_append "," t)) (truthy-cons _ _)

-- Every piece is a text that is not empty.
find?-filter :
    (p q : String → Bool) (xs : List String) (x : String)
    → find? p (reversed (filter q xs)) ≡ some x
    → q x ≡ true
find?-filter p q [] x e = cc
find?-filter p q (y ∷ xs) x e = elim (Bool-cases (q y)) [
  | inr h ↦ find?-filter p q xs x (rw h at e)
  | inl h ↦
      let e' = sym (find?-append p (reversed (filter q xs)) (y ∷ [])) ∙ rw h at e in
      elim (Option-cases (find? p (reversed (filter q xs)))) [
        | inr (z, f) ↦
            let same : z ≡ x = let g = rw f at e' in cc in find?-filter p q xs x (rw (← same) f)
        | inl f ↦ elim (Bool-cases (p y)) [
          | inl g ↦
              let g' = rw (f, g) at e' in let same : y ≡ x = cc in subst (λ w. q w ≡ true) same h
          | inr g ↦ let g' = rw (f, g) at e' in cc
        ]
      ]
]

peer-truthy :
    (lib : Ipaddress) (raw peer : String) → peer_is_trusted lib raw peer ≡ true → truthy peer ≡ true
unfolding peer_is_trusted
peer-truthy lib raw peer e = elim (Bool-cases (truthy peer)) [
  | inl t ↦ t
  | inr t ↦ let e' = rw (t, peer_is_trusted) at e in cc
]

-- From a peer that is not a trusted proxy, the address of the client is the peer's, whatever the headers say.
get_client_ip_direct :
    (lib : Ipaddress) (raw : String) (r : Request) (peer : String)
    → r.host ≡ some peer
    → truthy peer ≡ true
    → peer_is_trusted lib raw (normalize lib peer) ≡ false
    → get_client_ip lib raw none r ≡ some (normalize lib peer)
unfolding get_client_ip
get_client_ip_direct lib raw r peer h t u = elim (Bool-cases (truthy (normalize lib peer))) [
  | inl n ↦ rw (h, t, n, u, get_client_ip) refl
  | inr n ↦ rw (h, t, n, get_client_ip) refl
]

-- Behind trusted proxies, the address of the client is the rightmost hop of the forwarded header that is no trusted
-- proxy: what the client itself put to the left of it, of any length and content, makes no difference.
pub get_client_ip-vouched :
    (lib : Ipaddress) (raw : String) (r : Request) (peer real forged written : String)
    → r.host ≡ some peer
    → truthy peer ≡ true
    → peer_is_trusted lib raw (normalize lib peer) ≡ true
    → vouched lib raw written ≡ some real
    → r.x_forwarded_for ≡ some (joined forged written)
    → get_client_ip lib raw none r ≡ some (normalize lib real)
unfolding get_client_ip by_headers pieces
get_client_ip-vouched lib raw r peer real forged written h t u v x =
    let whole = truthy-joined forged written in
    let found = parse_xff-joined lib raw forged written real v in
    let real_text : truthy real ≡ true =
      find?-filter (λ hop. not (is_proxy_hop lib raw hop)) truthy (map strip (split comma written))
        real v in
    rw
      (
        h,
        t,
        peer-truthy lib raw (normalize lib peer) u,
        u,
        x,
        whole,
        found,
        real_text,
        get_client_ip,
        by_headers,
      )
      refl
