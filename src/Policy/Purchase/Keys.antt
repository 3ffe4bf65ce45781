-- ===== src/Policy/Purchase/Keys.antt =====
-- The keys of policies, and the worker that fetches their readings.
use parashield_backend.Base.{ℕ, ◌≡◌, true, List}
use parashield_backend.Oracle.KeyFormat.{rainfall_key, flight_key, kind_of}
use parashield_backend.Oracle.KeyFormat.Agreement.{crop_key_is_fetched, flight_key_is_fetched}
use parashield_backend.Policy.Purchase.{Category, crop, flight, other_category, has_key_format}

-- The worker takes the key to the fetch of the product's kind; a product of another category has none.
abbrev pub IsFetched : Category → List ℕ → Type 0
IsFetched crop key = kind_of key ≡ rainfall_key
IsFetched flight key = kind_of key ≡ flight_key
IsFetched other_category key = Unit

-- A key of the form that `validateOracleKey` asks of a crop or flight product is of the form for which
-- the worker fetches readings of that kind.
pub bought_key-IsFetched :
    (category : Category) (key : List ℕ)
    → has_key_format category key ≡ true
    → IsFetched category key
unfolding has_key_format
bought_key-IsFetched crop key h = crop_key_is_fetched key h
bought_key-IsFetched flight key h = flight_key_is_fetched key h
bought_key-IsFetched other_category key h = tt
