-- ===== src/Enums/CurrencyPair.antt =====
-- The class `CURRENCY_PAIR` (enums/currency_pair.py).
pub mod Values
use crypto_crawler.Prelude.{ℕ}

pub data CurrencyPair : Type 0 where
  btc_to_dash btc_to_eth btc_to_ltc btc_to_xrp btc_to_bcc btc_to_etc btc_to_sc btc_to_dgb :
      CurrencyPair
  btc_to_xem btc_to_ardr btc_to_omg btc_to_zec btc_to_rep btc_to_xmr btc_to_doge btc_to_dcr :
      CurrencyPair
  btc_to_neo btc_to_qtum btc_to_eos btc_to_iota btc_to_btg btc_to_wtc btc_to_knc btc_to_bat :
      CurrencyPair
  btc_to_zrx btc_to_rdn btc_to_gas btc_to_ada btc_to_rcn btc_to_qsp btc_to_xby btc_to_pac :
      CurrencyPair
  btc_to_rdd btc_to_icx btc_to_wabi btc_to_xlm btc_to_trx btc_to_aion btc_to_itc btc_to_ark :
      CurrencyPair
  btc_to_strat btc_to_lsk btc_to_eng btc_to_xvg btc_to_ont btc_to_hsr btc_to_zil btc_to_ven :
      CurrencyPair
  btc_to_elf btc_to_blz btc_to_req btc_to_link btc_to_nas btc_to_ela eth_to_dash eth_to_btc :
      CurrencyPair
  eth_to_ltc eth_to_xrp eth_to_bcc eth_to_etc eth_to_sc eth_to_dgb eth_to_xem eth_to_ardr :
      CurrencyPair
  eth_to_omg eth_to_zec eth_to_rep eth_to_xmr eth_to_neo eth_to_qtum eth_to_eos eth_to_iota :
      CurrencyPair
  eth_to_btg eth_to_wtc eth_to_knc eth_to_bat eth_to_zrx eth_to_rdn eth_to_gas eth_to_ada :
      CurrencyPair
  eth_to_rcn eth_to_qsp eth_to_xby eth_to_pac eth_to_rdd eth_to_icx eth_to_wabi eth_to_xlm :
      CurrencyPair
  eth_to_trx eth_to_aion eth_to_itc eth_to_ark eth_to_strat eth_to_lsk eth_to_eng eth_to_xvg :
      CurrencyPair
  eth_to_ont eth_to_hsr eth_to_zil eth_to_ven eth_to_elf eth_to_blz eth_to_req eth_to_link :
      CurrencyPair
  eth_to_nas eth_to_ela usd_to_dash usd_to_eth usd_to_ltc usd_to_xrp usd_to_bcc usd_to_etc :
      CurrencyPair
  usd_to_sc usd_to_dgb usd_to_xem usd_to_ardr usd_to_btc usd_to_zec usd_to_rep usd_to_xmr :
      CurrencyPair
  usdt_to_dash usdt_to_eth usdt_to_ltc usdt_to_xrp usdt_to_bcc usdt_to_etc usdt_to_sc : CurrencyPair
  usdt_to_dgb usdt_to_xem usdt_to_ardr usdt_to_btc usdt_to_zec usdt_to_rep usdt_to_xmr :
      CurrencyPair
  usdt_to_neo usdt_to_qtum usdt_to_eos usdt_to_iota usdt_to_btg usdt_to_wtc usdt_to_knc :
      CurrencyPair
  usdt_to_bat usdt_to_zrx usdt_to_rdn usdt_to_gas usdt_to_ada usdt_to_rcn usdt_to_qsp : CurrencyPair
  usdt_to_xby usdt_to_pac usdt_to_rdd usdt_to_icx usdt_to_wabi usdt_to_xlm usdt_to_trx :
      CurrencyPair
  usdt_to_aion usdt_to_itc usdt_to_xvg usdt_to_omg usdt_to_hsr usdt_to_zil usdt_to_ven :
      CurrencyPair
  usdt_to_elf usdt_to_nas usdt_to_ela usd_to_usdt : CurrencyPair

-- The number of each.
unfoldable pub id : CurrencyPair → ℕ
id CurrencyPair.btc_to_dash = 1
id CurrencyPair.btc_to_eth = 2
id CurrencyPair.btc_to_ltc = 3
id CurrencyPair.btc_to_xrp = 4
id CurrencyPair.btc_to_bcc = 5
id CurrencyPair.btc_to_etc = 6
id CurrencyPair.btc_to_sc = 7
id CurrencyPair.btc_to_dgb = 8
id CurrencyPair.btc_to_xem = 9
id CurrencyPair.btc_to_ardr = 10
id CurrencyPair.btc_to_omg = 11
id CurrencyPair.btc_to_zec = 12
id CurrencyPair.btc_to_rep = 13
id CurrencyPair.btc_to_xmr = 14
id CurrencyPair.btc_to_doge = 15
id CurrencyPair.btc_to_dcr = 16
id CurrencyPair.btc_to_neo = 17
id CurrencyPair.btc_to_qtum = 18
id CurrencyPair.btc_to_eos = 19
id CurrencyPair.btc_to_iota = 20
id CurrencyPair.btc_to_btg = 21
id CurrencyPair.btc_to_wtc = 22
id CurrencyPair.btc_to_knc = 23
id CurrencyPair.btc_to_bat = 24
id CurrencyPair.btc_to_zrx = 25
id CurrencyPair.btc_to_rdn = 26
id CurrencyPair.btc_to_gas = 27
id CurrencyPair.btc_to_ada = 28
id CurrencyPair.btc_to_rcn = 29
id CurrencyPair.btc_to_qsp = 30
id CurrencyPair.btc_to_xby = 31
id CurrencyPair.btc_to_pac = 32
id CurrencyPair.btc_to_rdd = 33
id CurrencyPair.btc_to_icx = 34
id CurrencyPair.btc_to_wabi = 35
id CurrencyPair.btc_to_xlm = 36
id CurrencyPair.btc_to_trx = 37
id CurrencyPair.btc_to_aion = 38
id CurrencyPair.btc_to_itc = 39
id CurrencyPair.btc_to_ark = 40
id CurrencyPair.btc_to_strat = 41
id CurrencyPair.btc_to_lsk = 42
id CurrencyPair.btc_to_eng = 43
id CurrencyPair.btc_to_xvg = 44
id CurrencyPair.btc_to_ont = 45
id CurrencyPair.btc_to_hsr = 46
id CurrencyPair.btc_to_zil = 47
id CurrencyPair.btc_to_ven = 48
id CurrencyPair.btc_to_elf = 49
id CurrencyPair.btc_to_blz = 50
id CurrencyPair.btc_to_req = 51
id CurrencyPair.btc_to_link = 52
id CurrencyPair.btc_to_nas = 53
id CurrencyPair.btc_to_ela = 54
id CurrencyPair.eth_to_dash = 1001
id CurrencyPair.eth_to_btc = 1002
id CurrencyPair.eth_to_ltc = 1003
id CurrencyPair.eth_to_xrp = 1004
id CurrencyPair.eth_to_bcc = 1005
id CurrencyPair.eth_to_etc = 1006
id CurrencyPair.eth_to_sc = 1007
id CurrencyPair.eth_to_dgb = 1008
id CurrencyPair.eth_to_xem = 1009
id CurrencyPair.eth_to_ardr = 1010
id CurrencyPair.eth_to_omg = 1011
id CurrencyPair.eth_to_zec = 1012
id CurrencyPair.eth_to_rep = 1013
id CurrencyPair.eth_to_xmr = 1014
id CurrencyPair.eth_to_neo = 1015
id CurrencyPair.eth_to_qtum = 1016
id CurrencyPair.eth_to_eos = 1017
id CurrencyPair.eth_to_iota = 1018
id CurrencyPair.eth_to_btg = 1019
id CurrencyPair.eth_to_wtc = 1020
id CurrencyPair.eth_to_knc = 1021
id CurrencyPair.eth_to_bat = 1022
id CurrencyPair.eth_to_zrx = 1023
id CurrencyPair.eth_to_rdn = 1024
id CurrencyPair.eth_to_gas = 1025
id CurrencyPair.eth_to_ada = 1026
id CurrencyPair.eth_to_rcn = 1027
id CurrencyPair.eth_to_qsp = 1028
id CurrencyPair.eth_to_xby = 1029
id CurrencyPair.eth_to_pac = 1030
id CurrencyPair.eth_to_rdd = 1031
id CurrencyPair.eth_to_icx = 1032
id CurrencyPair.eth_to_wabi = 1033
id CurrencyPair.eth_to_xlm = 1034
id CurrencyPair.eth_to_trx = 1035
id CurrencyPair.eth_to_aion = 1036
id CurrencyPair.eth_to_itc = 1037
id CurrencyPair.eth_to_ark = 1038
id CurrencyPair.eth_to_strat = 1039
id CurrencyPair.eth_to_lsk = 1040
id CurrencyPair.eth_to_eng = 1041
id CurrencyPair.eth_to_xvg = 1042
id CurrencyPair.eth_to_ont = 1043
id CurrencyPair.eth_to_hsr = 1044
id CurrencyPair.eth_to_zil = 1045
id CurrencyPair.eth_to_ven = 1046
id CurrencyPair.eth_to_elf = 1047
id CurrencyPair.eth_to_blz = 1048
id CurrencyPair.eth_to_req = 1049
id CurrencyPair.eth_to_link = 1050
id CurrencyPair.eth_to_nas = 1051
id CurrencyPair.eth_to_ela = 1052
id CurrencyPair.usd_to_dash = 2001
id CurrencyPair.usd_to_eth = 2002
id CurrencyPair.usd_to_ltc = 2003
id CurrencyPair.usd_to_xrp = 2004
id CurrencyPair.usd_to_bcc = 2005
id CurrencyPair.usd_to_etc = 2006
id CurrencyPair.usd_to_sc = 2007
id CurrencyPair.usd_to_dgb = 2008
id CurrencyPair.usd_to_xem = 2009
id CurrencyPair.usd_to_ardr = 2010
id CurrencyPair.usd_to_btc = 2011
id CurrencyPair.usd_to_zec = 2012
id CurrencyPair.usd_to_rep = 2013
id CurrencyPair.usd_to_xmr = 2014
id CurrencyPair.usdt_to_dash = 3001
id CurrencyPair.usdt_to_eth = 3002
id CurrencyPair.usdt_to_ltc = 3003
id CurrencyPair.usdt_to_xrp = 3004
id CurrencyPair.usdt_to_bcc = 3005
id CurrencyPair.usdt_to_etc = 3006
id CurrencyPair.usdt_to_sc = 3007
id CurrencyPair.usdt_to_dgb = 3008
id CurrencyPair.usdt_to_xem = 3009
id CurrencyPair.usdt_to_ardr = 3010
id CurrencyPair.usdt_to_btc = 3011
id CurrencyPair.usdt_to_zec = 3012
id CurrencyPair.usdt_to_rep = 3013
id CurrencyPair.usdt_to_xmr = 3014
id CurrencyPair.usdt_to_neo = 3015
id CurrencyPair.usdt_to_qtum = 3016
id CurrencyPair.usdt_to_eos = 3017
id CurrencyPair.usdt_to_iota = 3018
id CurrencyPair.usdt_to_btg = 3019
id CurrencyPair.usdt_to_wtc = 3020
id CurrencyPair.usdt_to_knc = 3021
id CurrencyPair.usdt_to_bat = 3022
id CurrencyPair.usdt_to_zrx = 3023
id CurrencyPair.usdt_to_rdn = 3024
id CurrencyPair.usdt_to_gas = 3025
id CurrencyPair.usdt_to_ada = 3026
id CurrencyPair.usdt_to_rcn = 3027
id CurrencyPair.usdt_to_qsp = 3028
id CurrencyPair.usdt_to_xby = 3029
id CurrencyPair.usdt_to_pac = 3030
id CurrencyPair.usdt_to_rdd = 3031
id CurrencyPair.usdt_to_icx = 3032
id CurrencyPair.usdt_to_wabi = 3033
id CurrencyPair.usdt_to_xlm = 3034
id CurrencyPair.usdt_to_trx = 3035
id CurrencyPair.usdt_to_aion = 3036
id CurrencyPair.usdt_to_itc = 3037
id CurrencyPair.usdt_to_xvg = 3038
id CurrencyPair.usdt_to_omg = 3039
id CurrencyPair.usdt_to_hsr = 3040
id CurrencyPair.usdt_to_zil = 3041
id CurrencyPair.usdt_to_ven = 3042
id CurrencyPair.usdt_to_elf = 3043
id CurrencyPair.usdt_to_nas = 3044
id CurrencyPair.usdt_to_ela = 3045
id CurrencyPair.usd_to_usdt = 4000
