-- ===== src/Cfg80211/Connections.antt =====
-- How a request to connect ends (cfg80211.c).
use wigig_wil.Prelude.{
  ℕ, suc, ◌≡◌, Bool, true, false, not, ◌&&◌, ◌==◌, if◌then◌else◌, is_some, List, [], ◌∷◌, length,
}
use wigig_wil.Dev.{Dev, Cmd, Rc, is_success, Fw}
use wigig_wil.Cmd.Structs.{ConnectCmd, connect_cmd}
use wigig_wil.Cfg80211.Connect.{Bss, Sme, network_type, secure}

-- how many requests to connect, of the number 1, are among the commands
abbrev pub requests : List Cmd → ℕ
requests [] = 0
requests (c ∷ cs) = if c.id == 1 then suc (requests cs) else requests cs

-- what the steps before the request leave alone
record Silent (d d' : Dev) : Type 0 where
  told : d'.told ≡ d.told
  timer : d'.timer ≡ d.timer
  dontscan : d'.dontscan ≡ d.dontscan
  requests : requests d'.sent ≡ requests d.sent

-- is a request sent? The BSS must have an SSID, a channel and a type that is supported, and the
-- commands of a secure connection must succeed.
abbrev pub may_ask : Fw → Bool → Bool → Sme → Bss → Dev → Bool
may_ask fw got use_pcp sme bss d =
    is_some bss.ssid
    && (is_success (secure fw got sme bss d).0
        && (is_some (network_type use_pcp bss.capability) && not (bss.hw_value == 0)))

-- how a request ends
pub data ConnectEnds (fw : Fw) (got use_pcp : Bool) (sme : Sme) (bss : Bss) (d : Dev) (p : Rc × Dev)
    : Type 0 where
  unasked :
      may_ask fw got use_pcp sme bss d ≡ false
      → requests p.1.sent ≡ requests d.sent
      → p.1.timer ≡ d.timer
      → p.1.dontscan ≡ d.dontscan
      → (is_success p.0 ≡ true → is_some (network_type use_pcp bss.capability) ≡ false)
      → ConnectEnds fw got use_pcp sme bss d p
  asked :
      (conn : ConnectCmd) (rest : List Cmd)
      → may_ask fw got use_pcp sme bss d ≡ true
      → p.1.sent ≡ (record { id = 1; body = connect_cmd conn }) ∷ rest
      → requests rest ≡ requests d.sent
      → length (connect_cmd conn) ≡ 60
      → conn.bssid ≡ bss.bssid
      → p.0 ≡ (fw p.1.sent).rc
      → p.1.timer ≡ (if is_success p.0 then true else d.timer)
      → p.1.dontscan ≡ true
      → ConnectEnds fw got use_pcp sme bss d p
