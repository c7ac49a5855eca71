-- ===== src/Enums/Currency.antt =====
-- The class `CURRENCY` (enums/currency.py).
use crypto_crawler.Prelude.{ℕ, List, [], ◌∷◌}

pub data Currency : Type 0 where
  bitcoin dash eth ltc xrp bcc etc sc dgb xem ardr omg zec rep xmr doge dcr neo qtum eos iota :
      Currency
  btg wtc knc bat zrx rdn gas ada rcn qsp xby pac rdd icx wabi xlm trx aion itc ark strat lsk :
      Currency
  eng xvg ont hsr zil ven elf blz req link nas ela usd usdt : Currency

-- The number of each.
unfoldable pub id : Currency → ℕ
id Currency.bitcoin = 0
id Currency.dash = 1
id Currency.eth = 2
id Currency.ltc = 3
id Currency.xrp = 4
id Currency.bcc = 5
id Currency.etc = 6
id Currency.sc = 7
id Currency.dgb = 8
id Currency.xem = 9
id Currency.ardr = 10
id Currency.omg = 11
id Currency.zec = 12
id Currency.rep = 13
id Currency.xmr = 14
id Currency.doge = 15
id Currency.dcr = 16
id Currency.neo = 17
id Currency.qtum = 18
id Currency.eos = 19
id Currency.iota = 20
id Currency.btg = 21
id Currency.wtc = 22
id Currency.knc = 23
id Currency.bat = 24
id Currency.zrx = 25
id Currency.rdn = 26
id Currency.gas = 27
id Currency.ada = 28
id Currency.rcn = 29
id Currency.qsp = 30
id Currency.xby = 31
id Currency.pac = 32
id Currency.rdd = 33
id Currency.icx = 34
id Currency.wabi = 35
id Currency.xlm = 36
id Currency.trx = 37
id Currency.aion = 38
id Currency.itc = 39
id Currency.ark = 40
id Currency.strat = 41
id Currency.lsk = 42
id Currency.eng = 43
id Currency.xvg = 44
id Currency.ont = 45
id Currency.hsr = 46
id Currency.zil = 47
id Currency.ven = 48
id Currency.elf = 49
id Currency.blz = 50
id Currency.req = 51
id Currency.link = 52
id Currency.nas = 53
id Currency.ela = 54
id Currency.usd = 1000
id Currency.usdt = 1001

-- `CURRENCY.values()`
unfoldable pub values : List Currency
values =
    Currency.bitcoin ∷ Currency.dash ∷ Currency.eth ∷ Currency.ltc ∷ Currency.xrp ∷ Currency.bcc
    ∷ Currency.etc ∷ Currency.sc ∷ Currency.dgb ∷ Currency.xem ∷ Currency.ardr ∷ Currency.omg
    ∷ Currency.zec ∷ Currency.rep ∷ Currency.xmr ∷ Currency.doge ∷ Currency.dcr ∷ Currency.neo
    ∷ Currency.qtum ∷ Currency.eos ∷ Currency.iota ∷ Currency.btg ∷ Currency.wtc ∷ Currency.knc
    ∷ Currency.bat ∷ Currency.zrx ∷ Currency.rdn ∷ Currency.gas ∷ Currency.ada ∷ Currency.rcn
    ∷ Currency.qsp ∷ Currency.xby ∷ Currency.pac ∷ Currency.rdd ∷ Currency.icx ∷ Currency.wabi
    ∷ Currency.xlm ∷ Currency.trx ∷ Currency.aion ∷ Currency.itc ∷ Currency.ark ∷ Currency.strat
    ∷ Currency.lsk ∷ Currency.eng ∷ Currency.xvg ∷ Currency.ont ∷ Currency.hsr ∷ Currency.zil
    ∷ Currency.ven ∷ Currency.elf ∷ Currency.blz ∷ Currency.req ∷ Currency.link ∷ Currency.nas
    ∷ Currency.ela ∷ Currency.usd ∷ Currency.usdt ∷ []
