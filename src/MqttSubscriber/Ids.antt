-- ===== src/MqttSubscriber/Ids.antt =====
-- src/collectors/mqtt_subscriber.py: the ids that stand for the numbers of nodes, read back.
use Prim.Native.String.append
use Prim.Native.String.{◌++◌ as join}
use meshforge_maps.Base.{
  ℕ, zero, suc, ◌+◌, ◌*◌, ◌/◌, ◌%◌, ◌^◌, ◌<◌, ◌≡◌, ap, ◌∙◌, String, Option, none, some, arith,
  if◌then◌else◌, str_eq,
}
use meshforge_maps.MqttSubscriber.Handlers.{hex_digit, hex, node_name}

-- the value of a digit, by a search below `n`
abbrev search_digit : ℕ → String → ℕ
search_digit zero c = zero
search_digit (suc n) c = let rest = search_digit n c in if str_eq (hex_digit n) c then n else rest

abbrev digit_value : String → ℕ
digit_value c = search_digit 16 c

-- a number in base 16, after the digits that make `n`
abbrev pub read_hex : ℕ → String → ℕ
read_hex n String.[] = n
read_hex n (String.◌∷◌ c s) = read_hex (16 * n + digit_value (String.◌∷◌ c String.[])) s

-- the number of an id
abbrev pub id_of : String → Option ℕ
id_of String.[] = none
id_of (String.◌∷◌ c s) =
    let n = read_hex 0 s in if str_eq (String.◌∷◌ c String.[]) "!" then some n else none

read_hex-append : (n : ℕ) (s t : String) → read_hex n (join s t) ≡ read_hex (read_hex n s) t
read_hex-append n String.[] t = ap (read_hex n) (append.nil t)
read_hex-append n (String.◌∷◌ c s) t =
    ap (read_hex n) (append.cons c s t)
    ∙ read_hex-append (16 * n + digit_value (String.◌∷◌ c String.[])) s t

read_hex_digit : (n d : ℕ) → d < 16 → read_hex n (hex_digit d) ≡ 16 * n + d
read_hex_digit n zero below = omega arith
read_hex_digit n (suc zero) below = omega arith
read_hex_digit n (suc (suc zero)) below = omega arith
read_hex_digit n (suc (suc (suc zero))) below = omega arith
read_hex_digit n (suc (suc (suc (suc zero)))) below = omega arith
read_hex_digit n (suc (suc (suc (suc (suc zero))))) below = omega arith
read_hex_digit n (suc (suc (suc (suc (suc (suc zero)))))) below = omega arith
read_hex_digit n (suc (suc (suc (suc (suc (suc (suc zero))))))) below = omega arith
read_hex_digit n (suc (suc (suc (suc (suc (suc (suc (suc zero)))))))) below = omega arith
read_hex_digit n (suc (suc (suc (suc (suc (suc (suc (suc (suc zero))))))))) below = omega arith
read_hex_digit n (suc (suc (suc (suc (suc (suc (suc (suc (suc (suc zero)))))))))) below =
    omega arith
read_hex_digit n (suc (suc (suc (suc (suc (suc (suc (suc (suc (suc (suc zero))))))))))) below =
    omega arith
read_hex_digit n (suc (suc (suc (suc (suc (suc (suc (suc (suc (suc (suc (suc zero))))))))))))
      below =
    omega arith
read_hex_digit n (suc (suc (suc (suc (suc (suc (suc (suc (suc (suc (suc (suc (suc zero)))))))))))))
      below =
    omega arith
read_hex_digit n
      (suc (suc (suc (suc (suc (suc (suc (suc (suc (suc (suc (suc (suc (suc zero))))))))))))))
      below =
    omega arith
read_hex_digit n
      (suc (suc (suc (suc (suc (suc (suc (suc (suc (suc (suc (suc (suc (suc (suc zero)))))))))))))))
      below =
    omega arith
read_hex_digit n
      (suc
        (suc (suc (suc (suc (suc (suc (suc (suc (suc (suc (suc (suc (suc (suc (suc d))))))))))))))))
      below =
    absurd (omega (arith, below))

abbrev hex_bound : ℕ → ℕ
hex_bound zero = 1
hex_bound (suc digits) = 16 * hex_bound digits

-- a number that has so many digits is read back
read_hex-hex : (digits n : ℕ) → n < hex_bound digits → read_hex 0 (hex digits n) ≡ n
read_hex-hex zero n small = omega (arith, small)
read_hex-hex (suc digits) n small =
    read_hex-append 0 (hex digits (n / 16)) (hex_digit (n % 16))
    ∙ ap (λ k. read_hex k (hex_digit (n % 16)))
        (read_hex-hex digits (n / 16) (omega (arith, small)))
    ∙ read_hex_digit (n / 16) (n % 16) (omega arith)
    ∙ omega arith

-- The id of a node of 32 bits, as the store's key, gives its number back: no two nodes share a key.
pub id_of-node_name : (n : ℕ) → n < 2 ^ 32 → id_of (node_name n) ≡ some n
unfolding node_name
id_of-node_name n small =
    rw (append.cons "!" "" (hex 8 n), append.nil (hex 8 n)) (ap some (read_hex-hex 8 n small))
