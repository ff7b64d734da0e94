-- ===== src/Dev/News.antt =====
-- What a disconnection tells the network stack (main.c, `_wil6210_disconnect`), by the kind of the
-- interface and the state of its connection.
use wigig_wil.Prelude.{ℕ, ◌≡◌, refl, Bool, true, false, Option, none, some, List, [], ◌∷◌}
use wigig_wil.Dev.{
  Told, Iftype, adhoc, station, ap, p2p_client, p2p_go, monitor, other, Sme, sme_idle,
  sme_connecting, sme_connected, disconnected, connect_result, del_sta,
}
use wigig_wil.Dev.Disconnect.{is_client, news_sme, news_del}

-- the interfaces of a client
abbrev pub is_off : Iftype → Bool
is_off adhoc = false
is_off station = true
is_off ap = false
is_off p2p_client = true
is_off p2p_go = false
is_off monitor = false
is_off other = false

-- What the stack is told at the end: a client that was connected hears that it is not, one that
-- was connecting that this failed; an access point hears that the station is gone.
abbrev pub news : Option (List ℕ) → Bool → Sme → List Told
news bssid true sme_connected = disconnected ∷ []
news bssid true sme_connecting = connect_result bssid none none false ∷ []
news bssid true sme_idle = []
news none false sme = []
news (some mac) false sme = del_sta mac ∷ []

pub is_off_lem : (t : Iftype) → is_client t ≡ is_off t
is_off_lem adhoc = refl
is_off_lem station = refl
is_off_lem ap = refl
is_off_lem p2p_client = refl
is_off_lem p2p_go = refl
is_off_lem monitor = refl
is_off_lem other = refl

pub news_sme-news : (bssid : Option (List ℕ)) (sme : Sme) → news_sme bssid sme ≡ news bssid true sme
news_sme-news bssid sme_connected = refl
news_sme-news bssid sme_connecting = refl
news_sme-news bssid sme_idle = refl

pub news_del-news : (bssid : Option (List ℕ)) (sme : Sme) → news_del bssid ≡ news bssid false sme
news_del-news none sme = refl
news_del-news (some mac) sme = refl
